-- ===== src/Codec/Headers.antt =====
-- The headers of a message, from zccp_msg_headers_insert to the functions that look one up.
use zccp.Base.{
  ℕ, uint64_of, ◌≡◌, refl, sym, ap, ◌∙◌, Option, none, some, streq, if◌then◌else◌, Bool-cases, inl,
  inr,
}
use zccp.Czmq.{Str, Czmq}
use zccp.Codec.{ZccpMsg}
use zccp.Codec.Access.{
  zccp_msg_headers_string, zccp_msg_headers_number, zccp_msg_headers_insert, headers_or_new,
  number_or,
}

module _ (C : Czmq) where
  open C use {
    Hash, zhash_new, zhash_update, zhash_lookup, lookup-update, lookup-new, zsys_vprintf, atol,
  }

  or_default : Option Str → Option Str → Option Str
  or_default default none = default
  or_default default (some value) = some value

  headers_string-lookup :
      (m : ZccpMsg Hash) (key : Str) (default : Option Str)
      → zccp_msg_headers_string C m key default
        ≡ or_default default (zhash_lookup (headers_or_new C m.headers) key)
  unfolding zccp_msg_headers_string headers_or_new or_default
  headers_string-lookup m key default = go m.headers
    where
      go :
          (t : Option Hash)
          → zccp_msg_headers_string C (record m { headers = t }) key default
            ≡ or_default default (zhash_lookup (headers_or_new C t) key)
      go none = ap (or_default default) (sym (lookup-new key))
      go (some t) = inner (zhash_lookup t key)
        where
          inner :
              (o : Option Str)
              → elim o [ none ↦ default | some value ↦ some value ] ≡ or_default default o
          inner none = refl
          inner (some value) = refl

  headers_number-lookup :
      (m : ZccpMsg Hash) (key : Str) (default : ℕ)
      → zccp_msg_headers_number C m key default
        ≡ number_or C default (zhash_lookup (headers_or_new C m.headers) key)
  unfolding zccp_msg_headers_number headers_or_new
  headers_number-lookup m key default = go m.headers
    where
      go :
          (t : Option Hash)
          → zccp_msg_headers_number C (record m { headers = t }) key default
            ≡ number_or C default (zhash_lookup (headers_or_new C t) key)
      go none = ap (number_or C default) (sym (lookup-new key))
      go (some t) = refl

  -- After zccp_msg_headers_insert, looking that header up gives the formatted text, or its number
  -- modulo 2^64, whatever the default; looking any other header up gives what it gave before, also in
  -- a message that had no headers.
  pub headers-insert :
      (m : ZccpMsg Hash) (key format j : Str) (text : Option Str) (number : ℕ)
      → (zccp_msg_headers_string C (zccp_msg_headers_insert C m key format) j text ≡ (
          if streq key j then some (zsys_vprintf format) else zccp_msg_headers_string C m j text))
        × (zccp_msg_headers_number C (zccp_msg_headers_insert C m key format) j number ≡ (
            if streq key j
            then uint64_of (atol (zsys_vprintf format))
            else zccp_msg_headers_number C m j number))
  unfolding zccp_msg_headers_insert headers_or_new or_default number_or
  headers-insert m key format j text number =
      let inserted = zccp_msg_headers_insert C m key format in
      let found = lookup-update (headers_or_new C m.headers) key (zsys_vprintf format) j in
      (
        headers_string-lookup inserted j text
            ∙ ap (or_default text) found
            ∙ elim (Bool-cases (streq key j)) [
              | inl e ↦ rw e
              | inr e ↦ rw e (sym (headers_string-lookup m j text))
            ],
        headers_number-lookup inserted j number
            ∙ ap (number_or C number) found
            ∙ elim (Bool-cases (streq key j)) [
              | inl e ↦ rw e
              | inr e ↦ rw e (sym (headers_number-lookup m j number))
            ],
      )
