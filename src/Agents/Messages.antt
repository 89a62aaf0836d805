-- ===== src/Agents/Messages.antt =====
-- The body of a message and the time in it: TimeSequenceMessageBodySource, TimestampProvider, and
-- the extractor of Consumer. A byte is a number below 256, an `int` and a `long` are given by their
-- 32 and 64 bits. The bytes of an array are those at the time of the call: a source writes its next
-- message to the same array.
pub mod Latency
use rabbitmq_perf_test.Base.{
  ℕ, zero, suc, ◌+◌, ◌-◌, ◌*◌, ◌/◌, ◌%◌, Bool, Option, none, some, List, [], ◌∷◌, ◌++◌, length, ltb,
  ◌==◌, if◌then◌else◌,
}
use rabbitmq_perf_test.Java.{wrap, half, sub_long, neg_long}

-- `DataOutputStream.writeInt` and `writeLong`: the bytes, the highest first.
unfoldable pub write_int : ℕ → List ℕ
write_int n = n / 0x1000000 % 256 ∷ n / 0x10000 % 256 ∷ n / 0x100 % 256 ∷ n % 256 ∷ []

unfoldable pub write_long : ℕ → List ℕ
unfolding write_int
write_long n = write_int (n / 0x100000000) ++ write_int n

-- `TimeSequenceMessageBodySource.doCreate`
unfoldable pub do_create : (timestamp sequence_number : ℕ) → List ℕ
unfolding write_int write_long
do_create timestamp sequence_number = write_int sequence_number ++ write_long timestamp

abbrev pub drop {ℓ} : {A : Type ℓ} → ℕ → List A → List A
drop zero xs = xs
drop (suc n) [] = []
drop (suc n) (x ∷ xs) = drop n xs

abbrev pub zeros : ℕ → List ℕ
zeros zero = []
zeros (suc n) = 0 ∷ zeros n

-- The arrays of a source, one for each possible size.
abbrev pub Source : Type 0
Source = List (List ℕ)

unfoldable pub new_source : (sizes : List ℕ) → Source
new_source [] = []
new_source (size ∷ sizes) = zeros size ∷ new_source sizes

-- `System.arraycopy(m, 0, message, 0, m.length)`
abbrev pub array_copy : (m message : List ℕ) → List ℕ
array_copy m message = m ++ drop (length m) message

-- The body, and the arrays behind the call: the first array of this size is written to, if the
-- content fits; an empty array stands in if there is none.
unfoldable pub fill : (size : ℕ) (m : List ℕ) → Source → List ℕ × Source
fill size m [] = (m, [])
fill size m (message ∷ messages) =
    let later = fill size m messages in
    if length message == size
    then (if ltb (length message) (length m)
        then (m, message ∷ messages)
        else (array_copy m message, array_copy m message ∷ messages))
    else (later.0, message ∷ later.1)

pub record MessageEnvelope : Type 0 where
  pub body : List ℕ
  pub time : ℕ

-- `create` at the time that the clock gives, with the size that the indicator gives.
unfoldable pub create : (time size sequence_number : ℕ) → Source → MessageEnvelope × Source
unfolding fill do_create
create time size sequence_number s =
    let (body, s') = fill size (do_create time sequence_number) s in
    (record { body = body; time = time }, s')

-- `DataInputStream.readInt` and `readLong`; `none` is an EOFException.
unfoldable pub read_int : List ℕ → Option (ℕ × List ℕ)
read_int (a ∷ b ∷ c ∷ d ∷ rest) = some (a * 0x1000000 + b * 0x10000 + c * 0x100 + d, rest)
read_int _ = none

infixl 5 ◌>>=◌
abbrev ◌>>=◌ {ℓ κ} : {A : Type ℓ} {B : Type κ} → Option A → (A → Option B) → Option B
none >>= f = none
some a >>= f = f a

unfoldable pub read_long : List ℕ → Option (ℕ × List ℕ)
unfolding read_int
read_long bytes = do
  (high, low_bytes) ← read_int bytes
  (low, rest) ← read_int low_bytes
  some (high * 0x100000000 + low, rest)

-- `TimestampProvider.INCORRECT_VALUE`, `Long.MAX_VALUE`
abbrev pub incorrect_value : ℕ
incorrect_value = half - 1

abbrev pub get_or_incorrect : Option (ℕ × List ℕ) → ℕ
get_or_incorrect none = incorrect_value
get_or_incorrect (some (timestamp, _)) = timestamp

-- The timestamp extractor of `Consumer` for a time in the body.
unfoldable pub extract : (body : List ℕ) → ℕ
unfolding read_int read_long
extract body = get_or_incorrect (read_int body >>= λ (_, rest). read_long rest)

-- `TimestampProvider.getDifference`; -1 for an incorrect value.
unfoldable pub get_difference : (ts1 ts2 : ℕ) → ℕ
get_difference ts1 ts2 =
    if ts2 == incorrect_value
    then wrap - 1
    else (if ltb (sub_long ts1 ts2) half then sub_long ts1 ts2 else neg_long (sub_long ts1 ts2))
