-- ===== src/Codec/Decode/Grammar.antt =====
-- The grammar of zccp_msg.bnf as relations between octets and what they stand for, with numbers of
-- its own, and with two departures: the signature is AA AA, which the file spells with a second
-- number that is no octet, and a text has any octets where the file has *VCHAR, and ends at its first
-- 0.
pub mod Readers
pub mod Exact
use zccp.Base.{ℕ, zero, suc, ◌+◌, ◌*◌, ◌^◌, ◌≡◌, List, [], ◌∷◌, ◌++◌, Option, none, some, length}
use zccp.Czmq.{Str, Frame, Czmq}
use zccp.Codec.{
  Kind, hello, hello_ok, subscribe, subscribe_ok, publish, direct, deliver, goodbye, goodbye_ok,
  ping, ping_ok, invalid, kind_of, ZccpMsg, zccp_msg_new,
}
use zccp.Codec.Wire.Get.{c_string}

abbrev pub Rule : Type 0 → Type 1
Rule A = List ℕ → A → Type 0

-- One rule after the other; and no octets, for a value.
abbrev pub Then : {A B : Type 0} → Rule A → (A → Rule B) → Rule B
Then {A} {B} G H bs b =
    (a : A) × (xs : List ℕ) × (ys : List ℕ) × (bs ≡ xs ++ ys) × G xs a × H a ys b

abbrev pub Yields : {A : Type 0} → A → Rule A
Yields a bs b = (bs ≡ []) × (b ≡ a)

-- number-1 and number-4, in network byte order; two octets for the signature.
abbrev pub Number1 : Rule ℕ
Number1 bs n = bs ≡ n ∷ []

abbrev pub Number2 : Rule ℕ
Number2 bs n = (a : ℕ) × (b : ℕ) × (bs ≡ a ∷ b ∷ []) × (n ≡ a * 2 ^ 8 + b)

abbrev pub Number4 : Rule ℕ
Number4 bs n =
    (a : ℕ) × (b : ℕ) × (c : ℕ) × (d : ℕ) × (bs ≡ a ∷ b ∷ c ∷ d ∷ [])
    × (n ≡ a * 2 ^ 24 + b * 2 ^ 16 + c * 2 ^ 8 + d)

-- A block of so many octets, read as a C string.
abbrev pub Text : ℕ → Rule Str
Text n bs s = (length bs ≡ n) × (s ≡ c_string bs)

-- string and longstr.
abbrev pub String : Rule Str
String = Then Number1 Text

abbrev pub Longstr : Rule Str
Longstr = Then Number4 Text

-- %d1 to %d12.
abbrev pub number_of : Kind → ℕ
number_of hello = 1
number_of hello_ok = 2
number_of subscribe = 3
number_of subscribe_ok = 4
number_of publish = 5
number_of direct = 6
number_of deliver = 7
number_of goodbye = 8
number_of goodbye_ok = 9
number_of ping = 10
number_of ping_ok = 11
number_of invalid = 12

module _ (C : Czmq) where
  open C use {Hash, zhash_new, zhash_insert}

  -- dict-count pairs of dict-name and dict-value; of those with the same name the first counts.
  abbrev pub Pairs : ℕ → Hash → Rule Hash
  Pairs zero t = Yields t
  Pairs (suc n) t =
      Then String (λ name. Then Longstr (λ value. Pairs n (zhash_insert t name value)))

  abbrev pub Dictionary : Rule Hash
  Dictionary = Then Number4 (λ n. Pairs n zhash_new)

  -- What is behind the number of a message; the content is the frames behind.
  unfoldable pub Fields : Kind → ZccpMsg Hash → List Frame → Rule (ZccpMsg Hash)
  Fields hello m content = Then String (λ identifier.
      Then Dictionary
        (λ headers. Yields (record m { identifier = some identifier; headers = some headers })))
  Fields hello_ok m content =
      Then Dictionary (λ headers. Yields (record m { headers = some headers }))
  Fields subscribe m content = Then String (λ expression.
      Then Dictionary
        (λ headers. Yields (record m { expression = some expression; headers = some headers })))
  Fields publish m content = Then String (λ address. Then Dictionary (λ headers.
      Yields (record m { address = some address; headers = some headers; content = some content })))
  Fields direct m content = Then String (λ address. Then Dictionary (λ headers.
      Yields (record m { address = some address; headers = some headers; content = some content })))
  Fields deliver m content = Then String (λ sender. Then String (λ address.
      Then Dictionary (λ headers. Yields (record m {
        sender = some sender;
        address = some address;
        headers = some headers;
        content = some content;
      }))))
  Fields goodbye_ok m content =
      Then Dictionary (λ headers. Yields (record m { headers = some headers }))
  Fields _ m content = Yields m

  -- The number of the grammar, and the fields of the message with that number.
  abbrev pub Command : ℕ → List Frame → Rule (ZccpMsg Hash)
  Command id content bs m =
      (k : Kind) × (id ≡ number_of k) × Fields k (zccp_msg_new Hash id) content bs m

  -- A message: the octets AA AA, a number of the protocol and its fields.
  abbrev pub Message : List Frame → Rule (ZccpMsg Hash)
  Message content =
      Then Number2 (λ sig bs m. (sig ≡ 0xAAAA) × Then Number1 (λ id. Command id content) bs m)
