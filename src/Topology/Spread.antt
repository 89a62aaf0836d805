-- ===== src/Topology/Spread.antt =====
-- com.rabbitmq.perf.MulticastParams and MulticastSet: how a sequence of queues is spread over the
-- clients.
use native.Mathlib.Nat.{mod-lt}
use rabbitmq_perf_test.Base.{
  ℕ, zero, suc, ◌+◌, ◌%◌, ◌<◌, ◌≡◌, refl, ap, String, true, false, not, ◌&&◌, ◌||◌, none, some,
  List, [], ◌∷◌, length, get_elem?, arith, ◌==◌,
}
use rabbitmq_perf_test.Java.{int_range, lt_int}
use rabbitmq_perf_test.Topology.Handlers.{
  TopologyParameters, Broker, Run, sequence, get_routing_key, queue_names_for_client,
}
use rabbitmq_perf_test.Topology.Clients.{
  Client, create_each, create_producer, declares_exchange, new_producer, declared_once, move_on,
}

pub get_elem?-some {ℓ} :
    {A : Type ℓ} (xs : List A) (i : ℕ) → i < length xs → (x : A) × (get_elem? xs i ≡ some x)
get_elem?-some [] i h = absurd (omega arith)
get_elem?-some (x ∷ xs) zero h = (x, refl)
get_elem?-some (x ∷ xs) (suc i) h = get_elem?-some xs i (omega arith)

-- The clients with the numbers from `i` on, one for each connection: the queue whose turn it is
-- is the routing key.
abbrev pub AreInTurn :
    (queues : List String) (i : ℕ) → (connections : List ℕ) → List Client → Type 0
AreInTurn queues i [] [] = Unit
AreInTurn queues i (x ∷ xs) (c ∷ cs) =
    ((get_elem? queues (i % length queues) ≡ some c.routing_key) × (c.connection ≡ x))
    × AreInTurn queues (i + 1) xs cs
AreInTurn queues i xs cs = true ≡ false

pub next_index : (i : ℕ) → i + 1 < 2_147_483_648 → (i + 1) % int_range ≡ i + 1
next_index i fits = ground arith

module _ (queues : List String) (pos : 0 < length queues) where
  -- The queue whose turn it is.
  pub current_queue :
      (i : ℕ)
      → i < 2_147_483_648
      → (q : String) × (get_elem? queues (i % length queues) ≡ some q)
        × (queue_names_for_client queues i ≡ some (q ∷ []))
  current_queue i fits =
      let (q, found) =
        get_elem?-some queues (i % length queues) (mod-lt i {m = length queues} pos) in
      let test : (length queues == 0 || lt_int i 0) ≡ false = ground arith in
      (q, found, rw (test, found) refl)

  module _ (params : TopologyParameters) (broker : Broker) where
    create_producer-current :
        (connection : ℕ) (r : Run) (i : ℕ)
        → broker.exchange_declare ≡ true
        → r.handler ≡ sequence queues i none
        → i + 1 < 2_147_483_648
        → (c : Client) × (t : Run) × (create_producer params broker connection r ≡ some (c, t))
          × (get_elem? queues (i % length queues) ≡ some c.routing_key)
          × (c.connection ≡ connection)
          × (t.handler ≡ sequence queues (i + 1) none)
    unfolding create_producer
    create_producer-current connection r i made start fits =
        let (q, found, current) = current_queue i (omega arith) in
        let test : (declares_exchange params broker && not broker.exchange_declare) ≡ false =
          ground arith in
        let key : get_routing_key r.handler ≡ some q = rw (start, current) refl in
        (
          new_producer params broker connection q,
          move_on (declared_once params broker connection r),
          rw (test, key) refl,
          found,
          refl,
          rw start (ap (λ k. sequence queues k none) (next_index i fits)),
        )

    pub create_producers :
        (connections : List ℕ) (r : Run) (i : ℕ)
        → broker.exchange_declare ≡ true
        → r.handler ≡ sequence queues i none
        → i + length connections < 2_147_483_648
        → (cs : List Client) × (t : Run) × (create_each
              (create_producer params broker)
              connections
              r
            ≡ some (cs, t))
          × AreInTurn queues i connections cs
    unfolding create_each
    create_producers [] r i made start fits = ([], r, refl, tt)
    create_producers (x ∷ xs) r i made start fits =
        let (c, t, done, found, same, after) =
          create_producer-current x r i made start (omega arith) in
        let (cs, u, rest, turns) = create_producers xs t (i + 1) made after (omega arith) in
        (c ∷ cs, u, rw (done, rest) refl, ((found, same), turns))
