-- ===== src/Agents/Confirms/Balance.antt =====
-- The permits of a producer and the messages that wait for their confirm, on one connection, under
-- any interleaving of the producer's thread, which takes a permit and then tracks a message, and of
-- the broker's answers. A recovery of the connection is no step of it.
use mathlib.Core.Option.{some-injective, none-ne-some}
use rabbitmq_perf_test.Base.{
  ℕ, zero, suc, ◌+◌, ◌<◌, ◌≡◌, ◌⊎◌, refl, ap, Option-cases, inl, inr, Bool, true, false, Bool-cases,
  some, [], ◌∷◌, length, arith, ltb, ◌==◌, All,
}
use rabbitmq_perf_test.Agents.Confirms.{
  Unconfirmed, Confirms, new_confirms, tracked, remove, head_map, cleared, Answer, process_ack,
  process_nack, release, handle_ack, handle_nack, acquire, track,
}

-- A message of this number waits.
abbrev pub Waits : ℕ → Unconfirmed → Type 0
Waits seq [] = ⊥
Waits seq ((k, t) ∷ m) = (k ≡ seq) ⊎ Waits seq m

-- A producer with its channel: `held` permits are taken for messages that are not tracked yet, and
-- `next_publish_seq_no` is what `getNextPublishSeqNo` gives.
pub record Flow : Type 0 where
  pub confirms : Confirms
  pub held : ℕ
  pub next_publish_seq_no : ℕ

-- One step of the producer or of the broker on one connection; a recovery is not one of them. The
-- broker answers a single message at most once, and only for numbers that the channel gave.
pub data Step : Flow → Flow → Type 0 where
  takes :
      (f : Flow) (c : Confirms)
      → acquire f.confirms ≡ some c
      → Step f (record f { confirms = c; held = f.held + 1 })
  tracks :
      (f : Flow) (held timestamp : ℕ)
      → f.held ≡ suc held
      → Step f (record f {
        confirms = track f.next_publish_seq_no timestamp f.confirms;
        held = held;
        next_publish_seq_no = f.next_publish_seq_no + 1;
      })
  acks :
      (f : Flow) (now seq : ℕ) (multiple : Bool)
      → seq < f.next_publish_seq_no
      → (multiple ≡ true) ⊎ Waits seq f.confirms.unconfirmed
      → Step f (record f { confirms = (handle_ack now seq multiple f.confirms).confirms })
  nacks :
      (f : Flow) (seq : ℕ) (multiple : Bool) (a : Answer)
      → seq < f.next_publish_seq_no
      → handle_nack seq multiple f.confirms ≡ some a
      → Step f (record f { confirms = a.confirms })

pub data Reach (f : Flow) : Flow → Type 0 where
  here : Reach f f
  next : {g h : Flow} → Reach f g → Step g h → Reach f h

-- All permits are there, or taken for one message each.
abbrev pub IsBalanced : ℕ → Flow → Type 0
IsBalanced max f =
    (permits : ℕ) × (f.confirms.confirm_pool ≡ some permits)
    × (permits + length f.confirms.unconfirmed + f.held ≡ max)
    × All (λ (k, t). k < f.next_publish_seq_no) f.confirms.unconfirmed

length-tracked :
    (seq t : ℕ) (m : Unconfirmed)
    → All (λ (k, _). k < seq) m
    → length (tracked seq t m) ≡ length m + 1
unfolding tracked
length-tracked seq t [] h = omega arith
length-tracked seq t ((k, u) ∷ m) (p, h) = ground (arith, length-tracked seq t m)

All-tracked :
    (seq t : ℕ) (m : Unconfirmed)
    → All (λ (k, _). k < seq) m
    → All (λ (k, _). k < seq + 1) (tracked seq t m)
unfolding tracked
All-tracked seq t [] h = (omega arith, tt)
All-tracked seq t ((k, u) ∷ m) (p, h) =
    let lt : ltb seq k ≡ false = ground arith in
    let ne : (k == seq) ≡ false = ground arith in
    rw (lt, ne) (omega (arith, p), All-tracked seq t m h)

length-head_map :
    (seq : ℕ) (m : Unconfirmed) → length (head_map seq m) + length (cleared seq m) ≡ length m
unfolding head_map cleared
length-head_map seq [] = refl
length-head_map seq ((k, t) ∷ m) = ground (arith, length-head_map seq m)

All-cleared : (P : ℕ × ℕ → Type 0) (seq : ℕ) (m : Unconfirmed) → All P m → All P (cleared seq m)
unfolding cleared
All-cleared P seq [] h = tt
All-cleared P seq ((k, t) ∷ m) (p, h) = elim (Bool-cases (ltb seq k)) [
  | inl e ↦ rw e (p, All-cleared P seq m h)
  | inr e ↦ rw e (All-cleared P seq m h)
]

length-remove : (seq : ℕ) (m : Unconfirmed) → Waits seq m → length (remove seq m).1 + 1 ≡ length m
unfolding remove
length-remove seq [] h = absurd h
length-remove seq ((k, t) ∷ m) h = ground (arith, length-remove seq m)

All-remove : (P : ℕ × ℕ → Type 0) (seq : ℕ) (m : Unconfirmed) → All P m → All P (remove seq m).1
unfolding remove
All-remove P seq [] h = tt
All-remove P seq ((k, t) ∷ m) (p, h) = elim (Bool-cases (k == seq)) [
  | inl e ↦ rw e h
  | inr e ↦ rw e (p, All-remove P seq m h)
]

-- `remove` finds exactly what waits.
remove-Waits_found : (seq : ℕ) (m : Unconfirmed) (t : ℕ) → (remove seq m).0 ≡ some t → Waits seq m
unfolding remove
remove-Waits_found seq [] t h = cc
remove-Waits_found seq ((k, u) ∷ m) t h = elim (Bool-cases (k == seq)) [
  | inl e ↦ inl (ground arith)
  | inr e ↦ inr (remove-Waits_found seq m t (rw e at h))
]

pub acquire-eq-some :
    (c d : Confirms) (permits : ℕ)
    → c.confirm_pool ≡ some permits
    → acquire c ≡ some d
    → (rest : ℕ) × (permits ≡ suc rest) × (record c { confirm_pool = some rest } ≡ d)
unfolding acquire
acquire-eq-some c d zero pool e = absurd (none-ne-some d (rw pool at e))
acquire-eq-some c d (suc rest) pool e = (rest, refl, some-injective _ _ (rw pool at e))

-- A nack that is handled changes the confirms as an ack would.
pub handle_nack-eq-some :
    (now seq : ℕ) (multiple : Bool) (c : Confirms) (a : Answer)
    → handle_nack seq multiple c ≡ some a
    → ((multiple ≡ true) ⊎ Waits seq c.unconfirmed)
      × ((handle_ack now seq multiple c).confirms ≡ a.confirms)
unfolding handle_nack process_nack handle_ack process_ack release
handle_nack-eq-some now seq true c a e = (inl refl, ap (λ b. b.confirms) (some-injective _ a e))
handle_nack-eq-some now seq false c a e = elim (Option-cases (remove seq c.unconfirmed).0) [
  | inl gone ↦ absurd (none-ne-some a (rw (gone, handle_nack, process_nack) at e))
  | inr (t, found) ↦ (
    inr (remove-Waits_found seq c.unconfirmed t found),
    ap (λ b. b.confirms) (some-injective _ a (rw (found, handle_nack, process_nack) at e)),
  )
]

module _ (max : ℕ) where
  -- Both handlers give back one permit for each message that they remove.
  IsBalanced-answer :
      (f : Flow) (a : Answer)
      → IsBalanced max f
      → a.confirms.confirm_pool ≡ f.confirms.confirm_pool
      → length a.confirms.unconfirmed + a.num_confirms ≡ length f.confirms.unconfirmed
      → All (λ (k, t). k < f.next_publish_seq_no) a.confirms.unconfirmed
      → IsBalanced max (record f { confirms = (release a).confirms })
  unfolding release
  IsBalanced-answer f a (permits, pool, balance, below) same removed still =
      (permits + a.num_confirms, rw (same, pool), omega (arith, balance, removed), still)

  module _ (f : Flow) (balanced : IsBalanced max f) where
    IsBalanced-takes :
        (c : Confirms)
        → acquire f.confirms ≡ some c
        → IsBalanced max (record f { confirms = c; held = f.held + 1 })
    unfolding acquire
    IsBalanced-takes c e =
        let (permits, pool, balance, below) = balanced in
        let (rest, taken, same) = acquire-eq-some f.confirms c permits pool e in
        rw⁻¹ same (rest, refl, omega (arith, balance, taken), below)

    IsBalanced-tracks :
        (held timestamp : ℕ)
        → f.held ≡ suc held
        → IsBalanced max (record f {
          confirms = track f.next_publish_seq_no timestamp f.confirms;
          held = held;
          next_publish_seq_no = f.next_publish_seq_no + 1;
        })
    unfolding track
    IsBalanced-tracks held timestamp e =
        let (permits, pool, balance, below) = balanced in
        rw pool (
          permits,
          refl,
          omega (
            arith,
            balance,
            e,
            length-tracked f.next_publish_seq_no timestamp f.confirms.unconfirmed below,
          ),
          All-tracked f.next_publish_seq_no timestamp f.confirms.unconfirmed below,
        )

    IsBalanced-acks :
        (now seq : ℕ) (multiple : Bool)
        → (multiple ≡ true) ⊎ Waits seq f.confirms.unconfirmed
        → IsBalanced max (record f { confirms = (handle_ack now seq multiple f.confirms).confirms })
    unfolding handle_ack process_ack
    IsBalanced-acks now seq true h =
        IsBalanced-answer f (process_ack now seq true f.confirms) balanced refl
          (omega (arith, length-head_map seq f.confirms.unconfirmed))
          (All-cleared (λ (k, t). k < f.next_publish_seq_no) seq f.confirms.unconfirmed balanced.3)
    IsBalanced-acks now seq false (inl e) = cc
    IsBalanced-acks now seq false (inr waits) =
        IsBalanced-answer f (process_ack now seq false f.confirms) balanced refl
          (length-remove seq f.confirms.unconfirmed waits)
          (All-remove (λ (k, t). k < f.next_publish_seq_no) seq f.confirms.unconfirmed balanced.3)

    IsBalanced-nacks :
        (seq : ℕ) (multiple : Bool) (a : Answer)
        → handle_nack seq multiple f.confirms ≡ some a
        → IsBalanced max (record f { confirms = a.confirms })
    IsBalanced-nacks seq multiple a e =
        let (answered, same) = handle_nack-eq-some 0 seq multiple f.confirms a e in
        rw⁻¹ same (IsBalanced-acks 0 seq multiple answered)

  Step-IsBalanced : {f g : Flow} → Step f g → IsBalanced max f → IsBalanced max g
  Step-IsBalanced (takes f c e) h = IsBalanced-takes f h c e
  Step-IsBalanced (tracks f held t e) h = IsBalanced-tracks f h held t e
  Step-IsBalanced (acks f now seq multiple _ p) h = IsBalanced-acks f h now seq multiple p
  Step-IsBalanced (nacks f seq multiple a _ e) h = IsBalanced-nacks f h seq multiple a e

  Reach-IsBalanced : {f g : Flow} → Reach f g → IsBalanced max f → IsBalanced max g
  Reach-IsBalanced here h = h
  Reach-IsBalanced (next r s) h = Step-IsBalanced s (Reach-IsBalanced r h)

abbrev pub first_flow : ℕ → Flow
first_flow max = record { confirms = new_confirms max; held = 0; next_publish_seq_no = 1 }

-- With publisher confirms and a limit below 2^31, in every state that a producer and its broker reach
-- before the connection is recovered for the first time, the permits and the messages that wait add
-- up to the limit, those included for which a permit is taken and that are not tracked yet: never
-- more messages wait than the limit allows, and no permit is lost.
pub Reach-permits :
    (max : ℕ) (g : Flow)
    → 0 < max
    → max < 2_147_483_648
    → Reach (first_flow max) g
    → (permits : ℕ) × (g.confirms.confirm_pool ≡ some permits)
      × (permits + length g.confirms.unconfirmed + g.held ≡ max)
unfolding new_confirms
Reach-permits max g h fits r =
    let (permits, pool, balance, _) = Reach-IsBalanced max r (max, ground arith, omega arith, tt) in
    (permits, pool, balance)
