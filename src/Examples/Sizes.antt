-- ===== src/Examples/Sizes.antt =====
-- The scenario "message-sizes-large" of html/examples/various-result.js.
pub mod Size5000
pub mod Size10000
pub mod Size500000
pub mod Size1000000
pub mod Size50000
pub mod Size100000
use rabbitmq_perf_test.Base.{[], ◌∷◌}
use rabbitmq_perf_test.Js.Number.{Number}
use rabbitmq_perf_test.Js.Value.{Value, str, arr, obj, of_list, end, field}
use Size5000.{size_5000}
use Size10000.{size_10000}
use Size500000.{size_500000}
use Size1000000.{size_1000000}
use Size50000.{size_50000}
use Size100000.{size_100000}

module _ (N : Number) where
  abbrev pub sizes_data : Value N
  sizes_data = obj (
      field "5000" (size_5000 N) (
        field "10000" (size_10000 N) (
          field "500000" (size_500000 N) (
            field "1000000" (size_1000000 N)
              (field "50000" (size_50000 N) (field "100000" (size_100000 N) end))))))

  abbrev pub sizes_dimensions : Value N
  sizes_dimensions = arr (of_list (str "minMsgSize" ∷ []))

  abbrev pub sizes_values : Value N
  sizes_values = obj (
      field "minMsgSize"
        (arr (
          of_list (
            str "5000"
            ∷ str "10000"
            ∷ str "50000"
            ∷ str "100000"
            ∷ str "500000"
            ∷ str "1000000"
            ∷ [])))
        end)

  abbrev pub message_sizes_large : Value N
  message_sizes_large = obj (
      field "data" sizes_data
        (field "dimensions" sizes_dimensions (field "dimension-values" sizes_values end)))
