-- ===== src/Examples/Sample.antt =====
-- The objects that a results file consists of, with their keys in the file's order.
use rabbitmq_perf_test.Base.{List}
use rabbitmq_perf_test.Js.Number.{Number}
use rabbitmq_perf_test.Js.Value.{Value, num, arr, obj, of_list, end, field}

module _ (N : Number) where
  abbrev pub sample :
      (elapsed low mean high received_bytes sent_bytes received sent : N.Num) → Value N
  sample elapsed low mean high received_bytes sent_bytes received sent = obj (
      field "elapsed" (num elapsed) (
        field "min-latency" (num low) (
          field "avg-latency" (num mean) (
            field "max-latency" (num high) (
              field "recv-bytes-rate" (num received_bytes) (
                field "send-bytes-rate" (num sent_bytes) (
                  field "recv-msg-rate" (num received) (field "send-msg-rate" (num sent) end))))))))

  abbrev pub totals :
      List (Value N) → (mean received_bytes sent_bytes received sent : N.Num) → Value N
  totals samples mean received_bytes sent_bytes received sent = obj (
      field "avg-latency" (num mean) (
        field "recv-bytes-rate" (num received_bytes) (
          field "send-bytes-rate" (num sent_bytes) (
            field "samples" (arr (of_list samples))
              (field "recv-msg-rate" (num received) (field "send-msg-rate" (num sent) end))))))
