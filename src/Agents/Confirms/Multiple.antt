-- ===== src/Agents/Confirms/Multiple.antt =====
-- An answer for several messages against answers for each of them, and the reset at a recovery.
use rabbitmq_perf_test.Base.{
  ℕ, suc, ◌≡◌, refl, sym, length-map, ap, ◌∙◌, inl, inr, true, false, Bool-cases, Option, none,
  some, List, [], ◌∷◌, ◌++◌, map, length, arith, ltb, ◌==◌, All,
}
use rabbitmq_perf_test.Agents.Messages.{get_difference}
use rabbitmq_perf_test.Agents.Confirms.{
  Unconfirmed, Confirms, remove, head_map, cleared, latencies_of, latency_of, process_ack, released,
  release, handle_ack,
}

-- Acks for single messages, one after another: the last state, and all latencies in order.
unfoldable pub ack_each : (current_time : ℕ) (seq_nos : List ℕ) → Confirms → Confirms × List ℕ
unfolding handle_ack process_ack
ack_each now [] c = (c, [])
ack_each now (seq ∷ seqs) c =
    let a = handle_ack now seq false c in
    let (last, latencies) = ack_each now seqs a.confirms in (last, a.latencies ++ latencies)

abbrev pub numbers : Unconfirmed → List ℕ
numbers m = map (λ (k, t). k) m

remove_each : List ℕ → Unconfirmed → Unconfirmed
remove_each [] m = m
remove_each (seq ∷ seqs) m = remove_each seqs (remove seq m).1

-- The latencies that `remove_each` comes upon.
latencies_each : (now : ℕ) → List ℕ → Unconfirmed → List ℕ
latencies_each now [] m = []
latencies_each now (seq ∷ seqs) m =
    latency_of now (remove seq m).0 ++ latencies_each now seqs (remove seq m).1

remove_self : (k t : ℕ) (m : Unconfirmed) → remove k ((k, t) ∷ m) ≡ (some t, m)
unfolding remove
remove_self k t m = let same : (k == k) ≡ true = ground arith in rw same

remove_other :
    (j k t : ℕ) (m : Unconfirmed)
    → (k == j) ≡ false
    → remove j ((k, t) ∷ m) ≡ ((remove j m).0, (k, t) ∷ (remove j m).1)
unfolding remove
remove_other j k t m other = rw other

-- What stands in front and has another number is in nobody's way.
remove_each_behind :
    (k t now : ℕ) (seqs : List ℕ) (m : Unconfirmed)
    → All (λ j. (k == j) ≡ false) seqs
    → (remove_each seqs ((k, t) ∷ m) ≡ (k, t) ∷ remove_each seqs m)
      × (latencies_each now seqs ((k, t) ∷ m) ≡ latencies_each now seqs m)
unfolding remove_each latencies_each
remove_each_behind k t now [] m h = (refl, refl)
remove_each_behind k t now (j ∷ seqs) m (other, h) =
    let (e, f) = remove_each_behind k t now seqs (remove j m).1 h in
    rw (remove_other j k t m other) (e, ap (λ ls. latency_of now (remove j m).0 ++ ls) f)

head_map_before :
    (seq k : ℕ) (m : Unconfirmed)
    → ltb seq k ≡ true
    → All (λ j. (k == j) ≡ false) (numbers (head_map seq m))
unfolding head_map
head_map_before seq k [] h = tt
head_map_before seq k ((j, t) ∷ m) h = elim (Bool-cases (ltb seq j)) [
  | inl late ↦ rw late (head_map_before seq k m h)
  | inr due ↦ rw due (ground arith, head_map_before seq k m h)
]

remove_each-head_map :
    (seq now : ℕ) (m : Unconfirmed)
    → (remove_each (numbers (head_map seq m)) m ≡ cleared seq m)
      × (latencies_each now (numbers (head_map seq m)) m ≡ latencies_of now (head_map seq m))
unfolding head_map cleared remove_each latencies_each
remove_each-head_map seq now [] = (refl, refl)
remove_each-head_map seq now ((k, t) ∷ m) =
    let (g, h) = remove_each-head_map seq now m in
    let seqs = numbers (head_map seq m) in
    elim (Bool-cases (ltb seq k)) [
      | inl late ↦
          let (e, f) = remove_each_behind k t now seqs m (head_map_before seq k m late) in
          rw late (e ∙ ap (λ r. (k, t) ∷ r) g, f ∙ h)
      | inr due ↦ rw due (
        ap (λ r. remove_each seqs r.1) (remove_self k t m) ∙ g,
        ap (λ r. latency_of now r.0 ++ latencies_each now seqs r.1) (remove_self k t m)
            ∙ ap (λ ls. get_difference now t ∷ ls) h,
      )
    ]

released_zero : (pool : Option ℕ) → released 0 pool ≡ pool
released_zero none = refl
released_zero (some permits) = ap some (omega arith)

released_again : (n : ℕ) (pool : Option ℕ) → released n (released 1 pool) ≡ released (suc n) pool
released_again n none = refl
released_again n (some permits) = ap some (omega arith)

ack_each_lem :
    (now : ℕ) (seqs : List ℕ) (c : Confirms)
    → ack_each now seqs c ≡ (
      record c {
        confirm_pool = released (length seqs) c.confirm_pool;
        unconfirmed = remove_each seqs c.unconfirmed;
      },
      latencies_each now seqs c.unconfirmed,
    )
unfolding ack_each handle_ack process_ack release remove_each latencies_each
ack_each_lem now [] c =
    ap (λ p. (record c { confirm_pool = p }, [])) (sym (released_zero c.confirm_pool))
ack_each_lem now (seq ∷ seqs) c =
    let a = handle_ack now seq false c in
    ap (λ (r : Confirms × List ℕ). (r.0, a.latencies ++ r.1)) (ack_each_lem now seqs a.confirms)
    ∙ ap
        (λ p. (
          record c {
            confirm_pool = p;
            unconfirmed = remove_each seqs (remove seq c.unconfirmed).1;
          },
          a.latencies ++ latencies_each now seqs (remove seq c.unconfirmed).1,
        ))
        (released_again (length seqs) c.confirm_pool)

-- An ack for all messages up to a number does what acks for each of those that wait would do, one
-- after another in order: the same messages wait behind it, as many permits are given back, and the
-- same latencies are reported.
pub handle_ack-ack_each :
    (now seq : ℕ) (c : Confirms)
    → ack_each now (numbers (head_map seq c.unconfirmed)) c
      ≡ ((handle_ack now seq true c).confirms, (handle_ack now seq true c).latencies)
unfolding handle_ack process_ack release
handle_ack-ack_each now seq c =
    let (e, f) = remove_each-head_map seq now c.unconfirmed in
    ack_each_lem now (numbers (head_map seq c.unconfirmed)) c
    ∙ rw (e, f, length-map (λ (k, t). k) (head_map seq c.unconfirmed))
