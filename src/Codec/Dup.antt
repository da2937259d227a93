-- ===== src/Codec/Dup.antt =====
-- zccp_msg_dup of zccp_msg.c, and what a copy keeps.
use zccp.Base.{
  if◌then◌else◌, Bool, true, false, ◌≡◌, refl, arith, inl, inr, Option-cases, Option, none, some,
}
use zccp.Czmq.{Str, Czmq}
use zccp.Codec.{
  Kind, hello, hello_ok, subscribe, subscribe_ok, publish, direct, deliver, goodbye, goodbye_ok,
  ping, ping_ok, invalid, kind_of, ZccpMsg, zccp_msg_new,
}
use zccp.Codec.Access.{zccp_msg_headers_string}
use mathlib.Core.Option

module _ (C : Czmq) where
  open C use {Hash, zhash_dup, zhash_lookup, lookup-dup}

  -- Number and routing id, which every copy keeps.
  new_copy : ZccpMsg Hash → ZccpMsg Hash
  new_copy m = record (zccp_msg_new Hash m.id) { routing_id = m.routing_id }

  dup_headers : ZccpMsg Hash → Option Hash
  dup_headers m = Option.map zhash_dup m.headers

  unfoldable pub dup_fields : Option Kind → ZccpMsg Hash → ZccpMsg Hash → ZccpMsg Hash
  unfolding dup_headers
  dup_fields (some hello) m copy = record copy {
    identifier = m.identifier;
    headers = dup_headers m;
  }
  dup_fields (some hello_ok) m copy = record copy { headers = dup_headers m }
  dup_fields (some subscribe) m copy = record copy {
    expression = m.expression;
    headers = dup_headers m;
  }
  dup_fields (some subscribe_ok) m copy = copy
  dup_fields (some publish) m copy = record copy {
    address = m.address;
    headers = dup_headers m;
    content = m.content;
  }
  dup_fields (some direct) m copy = record copy {
    address = m.address;
    headers = dup_headers m;
    content = m.content;
  }
  dup_fields (some deliver) m copy = record copy {
    sender = m.sender;
    address = m.address;
    headers = dup_headers m;
    content = m.content;
  }
  dup_fields (some goodbye) m copy = copy
  dup_fields (some goodbye_ok) m copy = record copy { headers = dup_headers m }
  dup_fields (some ping) m copy = copy
  dup_fields (some ping_ok) m copy = copy
  dup_fields (some invalid) m copy = copy
  dup_fields none m copy = copy

  unfoldable pub zccp_msg_dup : Option (ZccpMsg Hash) → Option (ZccpMsg Hash)
  unfolding new_copy
  zccp_msg_dup none = none
  zccp_msg_dup (some m) = some (dup_fields (kind_of m.id) m (new_copy m))

  -- The messages with a dictionary.
  abbrev pub has_headers : Kind → Bool
  has_headers subscribe_ok = false
  has_headers goodbye = false
  has_headers ping = false
  has_headers ping_ok = false
  has_headers invalid = false
  has_headers _ = true

  abbrev pub has_content : Kind → Bool
  has_content publish = true
  has_content direct = true
  has_content deliver = true
  has_content _ = false

  abbrev pub is_hello : Kind → Bool
  is_hello hello = true
  is_hello _ = false

  abbrev pub is_subscribe : Kind → Bool
  is_subscribe subscribe = true
  is_subscribe _ = false

  abbrev pub is_deliver : Kind → Bool
  is_deliver deliver = true
  is_deliver _ = false

  -- A field that the message has, NULL or not; NULL for one that it does not have.
  abbrev pub field {ℓ} : {A : Type ℓ} → Bool → Option A → Option A
  field b o = if b then o else none

  -- What a copy has: the fields of its message as they are, and a copy of the dictionary.
  abbrev pub IsCopy : Kind → ZccpMsg Hash → ZccpMsg Hash → Type 0
  IsCopy k m copy =
      (copy.id ≡ m.id)
      × (copy.routing_id ≡ m.routing_id)
      × (copy.identifier ≡ field (is_hello k) m.identifier)
      × (copy.expression ≡ field (is_subscribe k) m.expression)
      × (copy.address ≡ field (has_content k) m.address)
      × (copy.sender ≡ field (is_deliver k) m.sender)
      × (copy.content ≡ field (has_content k) m.content)
      × (copy.headers ≡ field (has_headers k) (Option.map zhash_dup m.headers))

  dup_headers_string :
      (m copy : ZccpMsg Hash) (key : Str) (default : Option Str)
      → copy.headers ≡ Option.map zhash_dup m.headers
      → zccp_msg_headers_string C copy key default ≡ zccp_msg_headers_string C m key default
  unfolding zccp_msg_headers_string
  dup_headers_string m copy key default e = elim (Option-cases m.headers) [
    | inl null ↦ ground (arith, e, null)
    | inr (t, full) ↦ ground (arith, e, full, lookup-dup t key)
  ]

  copy_of : Kind → ZccpMsg Hash → ZccpMsg Hash
  copy_of k m = dup_fields (some k) m (new_copy m)

  copy_of-IsCopy : (k : Kind) (m : ZccpMsg Hash) → IsCopy k m (copy_of k m)
  unfolding copy_of dup_fields new_copy zccp_msg_new
  copy_of-IsCopy hello m = (refl, refl, refl, refl, refl, refl, refl, refl)
  copy_of-IsCopy _ m = (refl, refl, refl, refl, refl, refl, refl, refl)

  headers-copy_of :
      (k : Kind) (m : ZccpMsg Hash)
      → has_headers k ≡ true
      → (copy_of k m).headers ≡ Option.map zhash_dup m.headers
  unfolding copy_of dup_fields
  headers-copy_of subscribe_ok m h = cc
  headers-copy_of goodbye m h = cc
  headers-copy_of ping m h = cc
  headers-copy_of ping_ok m h = cc
  headers-copy_of invalid m h = cc
  headers-copy_of _ m h = refl

  -- A copy of a message with a valid number has the same number and routing id and each field of
  -- its message as it is, a NULL one NULL; the fields that its message does not have are NULL. The
  -- dictionary is a copy, or NULL where the original's is, and where the message has headers, each
  -- lookup in it gives what it gives in the original.
  pub zccp_msg_dup_same :
      (m : ZccpMsg Hash) (k : Kind)
      → kind_of m.id ≡ some k
      → (copy : ZccpMsg Hash) × (zccp_msg_dup (some m) ≡ some copy)
        × IsCopy k m copy
        × (has_headers k ≡ true
            → (key : Str) (default : Option Str)
            → zccp_msg_headers_string C copy key default ≡ zccp_msg_headers_string C m key default)
  unfolding zccp_msg_dup copy_of
  zccp_msg_dup_same m k e = (
    copy_of k m,
    rw (e, zccp_msg_dup),
    copy_of-IsCopy k m,
    λ h key default. dup_headers_string m (copy_of k m) key default (headers-copy_of k m h),
  )
