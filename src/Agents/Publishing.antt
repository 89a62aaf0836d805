-- ===== src/Agents/Publishing.antt =====
-- The loop of a producer: `run`, `handlePublish` and `dealWithWriteOperation` of
-- com.rabbitmq.perf.Producer and AgentBase. An `int` is given by its 32 bits. What the rest of the
-- program decides in a round (interrupts, the rate, the recovery, the outcome of the calls of the
-- channel, the clock) is given by a `Turn`. No sleep is interrupted.
pub mod Rounds
pub mod Limit
pub mod Reached
pub mod Variable
use rabbitmq_perf_test.Base.{
  ℕ, zero, suc, ◌+◌, ◌%◌, Bool, true, false, not, ◌&&◌, ◌||◌, Option, none, some, String, List, [],
  ◌∷◌, ◌++◌, ltb, ◌==◌, if◌then◌else◌,
}
use rabbitmq_perf_test.Java.{int_range, lt_int, sub_long, lt_long}
use rabbitmq_perf_test.Agents.Confirms.{Confirms, acquire, track}

-- What a call of the channel throws, if it does: a shutdown that starts a recovery of the
-- connection, or one that does not, a socket's exception, or another one.
pub data Write : Type 0 where
  written connection_lost channel_closed socket_error io_error : Write

-- `dealWithWriteOperation`: whether the exception is passed on.
abbrev pub is_thrown : (recovery_enabled : Bool) → Write → Bool
is_thrown enabled written = false
is_thrown enabled connection_lost = not enabled
is_thrown enabled channel_closed = true
is_thrown enabled socket_error = not enabled
is_thrown enabled io_error = true

pub data Reason : Type 0 where
  message_limit thread_interrupted too_long error_in_producer : Reason

pub record Parameters : Type 0 where
  pub msg_limit : ℕ
  pub tx_size : ℕ
  pub variable_rate : Bool
  pub recovery_enabled : Bool

pub record Turn : Type 0 where
  pub interrupted : Bool
  pub rate_is_zero : Bool
  pub is_recovering : Bool
  pub publish : Write
  pub commit : Write
  pub publishing_id : ℕ
  pub timestamp : ℕ
  pub now : ℕ

pub record ProducerState : Type 0 where
  pub msg_count : ℕ
  pub last_stats_time : ℕ
  pub confirms : Confirms

-- A round, or the whole loop: the numbers of the messages that are counted, and the state, with the
-- exception's reason if there is one. A message is counted when it is sent, and also when the failure
-- to send it is ignored by `dealWithWriteOperation`, as a recovery is to come.
pub data Outcome : Type 0 where
  went : (numbered : List ℕ) → ProducerState → Outcome
  failed : (numbered : List ℕ) → ProducerState → Reason → Outcome

-- `++this.msgCount`
abbrev pub increment : ℕ → ℕ
increment n = (n + 1) % int_range

-- `commitTransactionIfNecessary`: whether it throws.
abbrev pub commit_fails : Parameters → Turn → (message_count : ℕ) → Bool
commit_fails p t n =
    not (p.tx_size == 0) && n % p.tx_size == 0 && is_thrown p.recovery_enabled t.commit

-- Where there is no permit the wait for one has been too long.
unfoldable pub handle_publish : Parameters → Turn → ProducerState → Outcome
unfolding acquire track
handle_publish p t s = if t.is_recovering then went [] s else elim (acquire s.confirms) [
  | none ↦ failed [] s too_long
  | some c ↦
      let tracked = record s { confirms = track t.publishing_id t.timestamp c } in
      let counted = record tracked { msg_count = increment s.msg_count } in
      if is_thrown p.recovery_enabled t.publish
      then failed [] tracked error_in_producer
      else (if commit_fails p t counted.msg_count
          then failed (s.msg_count ∷ []) counted error_in_producer
          else went (s.msg_count ∷ []) counted)
]

-- With a variable rate the count starts again, when the clock is more than 1000 on.
unfoldable pub restart : Parameters → Turn → ProducerState → ProducerState
restart p t s =
    if p.variable_rate && lt_long 1000 (sub_long t.now s.last_stats_time)
    then record s { last_stats_time = t.now; msg_count = 0 }
    else s

-- The body of the loop in `run`.
unfoldable pub one_round : Parameters → Turn → ProducerState → Outcome
unfolding handle_publish restart
one_round p t s =
    if p.variable_rate && t.rate_is_zero
    then went [] (restart p t s)
    else elim (handle_publish p t s) [
      | went numbered s' ↦ went numbered (restart p t s')
      | failed numbered s' reason ↦ failed numbered s' reason
    ]

unfoldable pub keep_going : Parameters → Turn → ProducerState → Bool
keep_going p t s = (p.msg_limit == 0 || lt_int s.msg_count p.msg_limit) && not t.interrupted

-- Behind the loop: the reason with which it counts down. An interrupted producer that has not
-- reached its limit does not count down.
unfoldable pub end_reason : Parameters → ProducerState → Option Reason
end_reason p s =
    if lt_int s.msg_count p.msg_limit
    then none
    else some (if p.msg_limit == 0 then thread_interrupted else message_limit)

pub data Ended : Type 0 where
  running : Ended
  returned : Option Reason → Ended
  thrown : Reason → Ended

pub record Progress : Type 0 where
  pub numbered : List ℕ
  pub state : ProducerState
  pub ended : Ended

-- The loop, as far as the turns go.
unfoldable pub run_producer : Parameters → List Turn → ProducerState → Progress
unfolding one_round end_reason keep_going
run_producer p [] s = record { numbered = []; state = s; ended = running }
run_producer p (t ∷ ts) s = elim (keep_going p t s) [
  | false ↦ record { numbered = []; state = s; ended = returned (end_reason p s) }
  | true ↦ elim (one_round p t s) [
    | went numbered s' ↦
        let rest = run_producer p ts s' in record rest { numbered = numbered ++ rest.numbered }
    | failed numbered s' reason ↦ record { numbered = numbered; state = s'; ended = thrown reason }
  ]
]
