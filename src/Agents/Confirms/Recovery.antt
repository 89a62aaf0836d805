-- ===== src/Agents/Confirms/Recovery.antt =====
-- The confirms of a producer over a reconnection: the permits are reset, the map is not.
use mathlib.Core.Option.{some-injective, none-ne-some}
use mathlib.Core.Path.{subst}
use rabbitmq_perf_test.Base.{
  ℕ, zero, suc, ◌+◌, ◌-◌, ◌<◌, ◌≤◌, ◌≡◌, refl, sym, ap, ◌∙◌, inl, inr, Bool, true, false,
  Bool-cases, Option, Option-cases, none, some, [], ◌∷◌, arith, ltb, ◌==◌,
}
use rabbitmq_perf_test.Agents.Confirms.{
  Unconfirmed, Confirms, new_confirms, tracked, remove, cleared, process_ack, release, handle_ack,
  acquire, track, recover,
}
use rabbitmq_perf_test.Agents.Confirms.Balance.{
  Waits, Flow, Step, takes, tracks, acks, nacks, Reach, here, next, first_flow, Reach-permits,
  handle_nack-eq-some,
}

acquire-kept :
    (c d : Confirms)
    → acquire c ≡ some d
    → (c.unconfirmed ≡ d.unconfirmed) × (c.max_outstanding_confirms ≡ d.max_outstanding_confirms)
unfolding acquire
acquire-kept c d e = by_pool c.confirm_pool refl
  where
    by_pool :
        (pool : Option ℕ)
        → c.confirm_pool ≡ pool
        → (c.unconfirmed ≡ d.unconfirmed)
          × (c.max_outstanding_confirms ≡ d.max_outstanding_confirms)
    by_pool none p =
        let f = some-injective _ d (rw p at e) in
        (ap (λ b. b.unconfirmed) f, ap (λ b. b.max_outstanding_confirms) f)
    by_pool (some zero) p = absurd (none-ne-some d (rw p at e))
    by_pool (some (suc n)) p =
        let f = some-injective _ d (rw p at e) in
        (ap (λ b. b.unconfirmed) f, ap (λ b. b.max_outstanding_confirms) f)

track-limit :
    (seq t : ℕ) (c : Confirms)
    → (track seq t c).max_outstanding_confirms ≡ c.max_outstanding_confirms
unfolding track
track-limit seq t c = elim (Option-cases c.confirm_pool) [ inl p ↦ rw p | inr (n, p) ↦ rw p ]

handle_ack-limit :
    (now seq : ℕ) (multiple : Bool) (c : Confirms)
    → (handle_ack now seq multiple c).confirms.max_outstanding_confirms ≡ c.max_outstanding_confirms
unfolding handle_ack process_ack release
handle_ack-limit now seq true c = refl
handle_ack-limit now seq false c = refl

Step-limit :
    {f g : Flow}
    → Step f g
    → g.confirms.max_outstanding_confirms ≡ f.confirms.max_outstanding_confirms
Step-limit (takes f c e) = sym (acquire-kept f.confirms c e).1
Step-limit (tracks f held t e) = track-limit f.next_publish_seq_no t f.confirms
Step-limit (acks f now seq multiple _ p) = handle_ack-limit now seq multiple f.confirms
Step-limit (nacks f seq multiple a _ e) =
    sym (ap (λ c. c.max_outstanding_confirms) (handle_nack-eq-some 0 seq multiple f.confirms a e).1)
    ∙ handle_ack-limit 0 seq multiple f.confirms

pub Reach-limit :
    {f g : Flow}
    → Reach f g
    → g.confirms.max_outstanding_confirms ≡ f.confirms.max_outstanding_confirms
Reach-limit here = refl
Reach-limit (next r s) = Step-limit s ∙ Reach-limit r

-- When the connection of a producer is recovered for the first time, in whatever state, the reset
-- gives all permits back, with no exception, and leaves the messages that wait where they are. The
-- limit is above 0 and below 2^31.
pub recover-Reach :
    (max : ℕ) (g : Flow)
    → 0 < max
    → max < 2_147_483_648
    → Reach (first_flow max) g
    → recover g.confirms ≡ some (record g.confirms { confirm_pool = some max })
unfolding recover new_confirms
recover-Reach max g h small r =
    let (permits, pool, balance) = Reach-permits max g h small r in
    let start : (first_flow max).confirms.max_outstanding_confirms ≡ max = ground arith in
    let limit : g.confirms.max_outstanding_confirms ≡ max = Reach-limit r ∙ start in
    let fits : ltb max permits ≡ false = ground arith in
    let all : permits + (max - permits) ≡ max = omega (arith, balance) in
    rw (pool, limit, fits, all)

-- A reset leaves the map alone.
recover-unconfirmed : (c d : Confirms) → recover c ≡ some d → c.unconfirmed ≡ d.unconfirmed
unfolding recover
recover-unconfirmed c d e = elim (Option-cases c.confirm_pool) [
  | inl none_there ↦ ap (λ b. b.unconfirmed) (some-injective c d (rw (none_there, recover) at e))
  | inr (permits, pool) ↦ elim (Bool-cases (ltb c.max_outstanding_confirms permits)) [
    | inl over ↦ absurd (none-ne-some d (rw (pool, over, recover) at e))
    | inr fine ↦ ap (λ b. b.unconfirmed) (some-injective _ d (rw (pool, fine, recover) at e))
  ]
]

Waits-tracked : (k seq t : ℕ) (m : Unconfirmed) → Waits k m → Waits k (tracked seq t m)
unfolding tracked
Waits-tracked k seq t [] h = absurd h
Waits-tracked k seq t ((j, u) ∷ m) h = elim (Bool-cases (ltb seq j)) [
  | inl front ↦ rw front (inr h)
  | inr back ↦ elim (Bool-cases (j == seq)) [
    | inl same ↦ rw (back, same) h
    | inr other ↦
        rw (back, other) (elim h [ inl e ↦ inl e | inr w ↦ inr (Waits-tracked k seq t m w) ])
  ]
]

Waits-cleared : (k seq : ℕ) (m : Unconfirmed) → seq < k → Waits k m → Waits k (cleared seq m)
unfolding cleared
Waits-cleared k seq [] lt h = absurd h
Waits-cleared k seq ((j, u) ∷ m) lt (inl e) =
    let late : ltb seq j ≡ true = ground arith in rw late (inl e)
Waits-cleared k seq ((j, u) ∷ m) lt (inr w) = elim (Bool-cases (ltb seq j)) [
  | inl late ↦ rw late (inr (Waits-cleared k seq m lt w))
  | inr due ↦ rw due (Waits-cleared k seq m lt w)
]

Waits-remove : (k seq : ℕ) (m : Unconfirmed) → seq < k → Waits k m → Waits k (remove seq m).1
unfolding remove
Waits-remove k seq [] lt h = absurd h
Waits-remove k seq ((j, u) ∷ m) lt (inl e) =
    let other : (j == seq) ≡ false = ground arith in rw other (inl e)
Waits-remove k seq ((j, u) ∷ m) lt (inr w) = elim (Bool-cases (j == seq)) [
  | inl same ↦ rw same w
  | inr other ↦ rw other (inr (Waits-remove k seq m lt w))
]

Waits-handle_ack :
    (k now seq : ℕ) (multiple : Bool) (c : Confirms)
    → seq < k
    → Waits k c.unconfirmed
    → Waits k (handle_ack now seq multiple c).confirms.unconfirmed
unfolding handle_ack process_ack release
Waits-handle_ack k now seq true c lt w = Waits-cleared k seq c.unconfirmed lt w
Waits-handle_ack k now seq false c lt w = Waits-remove k seq c.unconfirmed lt w

Waits-track :
    (k seq t : ℕ) (c : Confirms) → Waits k c.unconfirmed → Waits k (track seq t c).unconfirmed
unfolding track
Waits-track k seq t c w = elim (Option-cases c.confirm_pool) [
  | inl p ↦ rw p w
  | inr (n, p) ↦ rw p (Waits-tracked k seq t c.unconfirmed w)
]

Step-next_publish_seq_no : {f g : Flow} → Step f g → f.next_publish_seq_no ≤ g.next_publish_seq_no
Step-next_publish_seq_no (takes f c e) = omega arith
Step-next_publish_seq_no (tracks f held t e) = omega arith
Step-next_publish_seq_no (acks f now seq multiple _ p) = omega arith
Step-next_publish_seq_no (nacks f seq multiple a _ e) = omega arith

Step-Waits :
    {f g : Flow} (k : ℕ)
    → Step f g
    → g.next_publish_seq_no ≤ k
    → Waits k f.confirms.unconfirmed
    → Waits k g.confirms.unconfirmed
Step-Waits k (takes f c e) n w = rw⁻¹ (acquire-kept f.confirms c e).0 w
Step-Waits k (tracks f held t e) n w = Waits-track k f.next_publish_seq_no t f.confirms w
Step-Waits k (acks f now seq multiple lt p) n w =
    Waits-handle_ack k now seq multiple f.confirms (omega (arith, lt, n)) w
Step-Waits k (nacks f seq multiple a lt e) n w =
    rw⁻¹ (handle_nack-eq-some 0 seq multiple f.confirms a e).1
      (Waits-handle_ack k 0 seq multiple f.confirms (omega (arith, lt, n)) w)

Reach-Waits :
    {f g : Flow} (k : ℕ)
    → Reach f g
    → g.next_publish_seq_no ≤ k
    → Waits k f.confirms.unconfirmed
    → Waits k g.confirms.unconfirmed
Reach-Waits k here n w = w
Reach-Waits k (next r s) n w =
    Step-Waits k s n (Reach-Waits k r (omega (arith, Step-next_publish_seq_no s, n)) w)

-- A message of the old connection stays unconfirmed behind a recovery. The new channel counts from
-- 1 again, and the broker answers only for the numbers that this channel gave: as long as it has not
-- given the number of the old message, the message waits.
pub Waits-recover :
    (max k : ℕ) (g h : Flow) (c : Confirms)
    → 0 < max
    → Reach (first_flow max) g
    → Waits k g.confirms.unconfirmed
    → recover g.confirms ≡ some c
    → Reach (record g { confirms = c; next_publish_seq_no = 1 }) h
    → h.next_publish_seq_no ≤ k
    → Waits k h.confirms.unconfirmed
Waits-recover max k g h c pos r w e later n =
    Reach-Waits k later n (subst (λ m. Waits k m) (recover-unconfirmed g.confirms c e) w)
