-- ===== src/Codec/Decode/Complete.antt =====
-- Which fields a message that zccp_msg_decode or zccp_msg_recv returns is sure to have.
use zccp.Base.{
  false, ◌≡◌, refl, ◌∙◌, ap, subst, sym, true, ℕ, List, [], ◌∷◌, Option, none, some, ◌==◌, inl, inr,
  Bool-cases,
}
use zccp.Czmq.{Str, Frame, Czmq}
use zccp.Codec.{
  Kind, hello, hello_ok, subscribe, publish, direct, deliver, goodbye_ok, kind_of, ZccpMsg,
  zccp_msg_new,
}
use zccp.Codec.Wire.Get.{Reader, ◌>>=◌, got, get_number1, get_number2, get_string}
use zccp.Codec.Encode.{signature}
use zccp.Codec.Decode.{get_headers, get_fields, get_command, get_frame, zccp_msg_decode}
use zccp.Codec.Socket.{set_routing, zccp_msg_recv}

-- The property holds of what was read, if anything was.
abbrev pub Holds : {A : Type 0} → (A → Type 0) → Option (A × List ℕ) → Type 0
Holds P none = Unit
Holds P (some (a, rest)) = P a

abbrev pub Gives : {A : Type 0} → (A → Type 0) → Reader A → Type 0
Gives P r = (bs : List ℕ) → Holds P (r bs)

bind-Holds :
    {A B : Type 0} (P : B → Type 0) (f : A → Reader B) (x : Option (A × List ℕ))
    → ((a : A) → Gives P (f a))
    → Holds P (elim x [ none ↦ none | some (a, rest) ↦ f a rest ])
bind-Holds P f none h = tt
bind-Holds P f (some (a, rest)) h = h a rest

pub then-Gives :
    {A B : Type 0} (P : B → Type 0) (r : Reader A) (f : A → Reader B)
    → ((a : A) → Gives P (f a))
    → Gives P (r >>= f)
then-Gives P r f h bs = bind-Holds P f (r bs) h

module _ (C : Czmq) where
  open C use {Hash}

  -- The fields that the broker reads of a request, and the client of a DELIVER.
  abbrev pub HasFields : Kind → ZccpMsg Hash → Type 0
  HasFields hello m = (i : Str) × (m.identifier ≡ some i)
  HasFields subscribe m = (e : Str) × (m.expression ≡ some e)
  HasFields publish m = (a : Str) × (m.address ≡ some a)
  HasFields deliver m =
      (s : Str) × (a : Str) × (frames : List Frame) × (m.sender ≡ some s)
      × (m.address ≡ some a)
      × (m.content ≡ some frames)
  HasFields _ m = Unit

  abbrev pub IsComplete : ZccpMsg Hash → Type 0
  IsComplete m = (k : Kind) → kind_of m.id ≡ some k → HasFields k m

  abbrev Numbered : ℕ → Kind → ZccpMsg Hash → Type 0
  Numbered id k m = (m.id ≡ id) × HasFields k m

  pub headers-Gives :
      (P : ZccpMsg Hash → Type 0) (f : Hash → ZccpMsg Hash)
      → ((t : Hash) → P (f t))
      → Gives P (get_headers C >>= λ t. got (f t))
  headers-Gives P f h = then-Gives P (get_headers C) (λ t. got (f t)) (λ t bs. h t)

  pub string_headers-Gives :
      (P : ZccpMsg Hash → Type 0) (f : Str → Hash → ZccpMsg Hash)
      → ((i : Str) (t : Hash) → P (f i t))
      → Gives P (get_string >>= λ i. get_headers C >>= λ t. got (f i t))
  string_headers-Gives P f h =
      then-Gives P get_string (λ i. get_headers C >>= λ t. got (f i t))
        (λ i. headers-Gives P (f i) (h i))

  get_fields-Gives :
      (k : Kind) (m : ZccpMsg Hash) (msg : List Frame)
      → Gives (Numbered m.id k) (get_fields C k m msg)
  unfolding get_fields
  get_fields-Gives hello m msg =
      string_headers-Gives (Numbered m.id hello)
        (λ i t. record m { identifier = some i; headers = some t }) (λ i t. (refl, (i, refl)))
  get_fields-Gives subscribe m msg =
      string_headers-Gives (Numbered m.id subscribe)
        (λ i t. record m { expression = some i; headers = some t }) (λ i t. (refl, (i, refl)))
  get_fields-Gives publish m msg =
      string_headers-Gives (Numbered m.id publish)
        (λ i t. record m { address = some i; headers = some t; content = some msg })
        (λ i t. (refl, (i, refl)))
  get_fields-Gives direct m msg =
      string_headers-Gives (Numbered m.id direct)
        (λ i t. record m { address = some i; headers = some t; content = some msg })
        (λ i t. (refl, tt))
  get_fields-Gives deliver m msg = then-Gives (Numbered m.id deliver) get_string _ (λ s.
      string_headers-Gives (Numbered m.id deliver)
        (λ i t. record m {
          sender = some s;
          address = some i;
          headers = some t;
          content = some msg;
        })
        (λ i t. (refl, (s, i, msg, refl, refl, refl))))
  get_fields-Gives hello_ok m msg =
      headers-Gives (Numbered m.id hello_ok) (λ t. record m { headers = some t }) (λ t. (refl, tt))
  get_fields-Gives goodbye_ok m msg =
      headers-Gives (Numbered m.id goodbye_ok) (λ t. record m { headers = some t })
        (λ t. (refl, tt))
  get_fields-Gives _ m msg = λ bs. (refl, tt)

  pub Holds-mono :
      (P Q : ZccpMsg Hash → Type 0) (x : Option (ZccpMsg Hash × List ℕ))
      → ((m : ZccpMsg Hash) → P m → Q m)
      → Holds P x
      → Holds Q x
  Holds-mono P Q none f h = tt
  Holds-mono P Q (some (m, rest)) f h = f m h

  pub same_kind : (k j : Kind) → some k ≡ some j → k ≡ j
  same_kind k j e = cc

  pub same_msg : (a b : ZccpMsg Hash) → some a ≡ some b → a ≡ b
  same_msg a b e = cc

  complete :
      (id : ℕ) (k : Kind) (m : ZccpMsg Hash) → kind_of id ≡ some k → Numbered id k m → IsComplete m
  complete id k m e (n, h) j ej =
      subst (λ x. HasFields x m) (same_kind k j (sym e ∙ ap kind_of (sym n) ∙ ej)) h

  get_command-Gives :
      (id : ℕ) (o : Option Kind) (msg : List Frame)
      → kind_of id ≡ o
      → Gives IsComplete (get_command C id o msg)
  unfolding get_command zccp_msg_new
  get_command-Gives id none msg e = λ bs. tt
  get_command-Gives id (some k) msg e = λ bs.
      Holds-mono (Numbered id k) IsComplete (get_fields C k (zccp_msg_new Hash id) msg bs)
        (λ m h. complete id k m e h) (get_fields-Gives k (zccp_msg_new Hash id) msg bs)

  get_frame-Gives : (msg : List Frame) → Gives IsComplete (get_frame C msg)
  unfolding get_frame
  get_frame-Gives msg = then-Gives IsComplete get_number2 _ (λ sig.
      elim (Bool-cases (sig == signature)) [
        | inl e ↦
            rw e (
              then-Gives IsComplete get_number1 _
                (λ id. get_command-Gives id (kind_of id) msg refl))
        | inr e ↦ rw e (λ bs. tt)
      ])

  first-Holds :
      (x : Option (ZccpMsg Hash × List ℕ)) (m : ZccpMsg Hash)
      → Holds IsComplete x
      → elim x [ none ↦ none | some (a, rest) ↦ some a ] ≡ some m
      → IsComplete m
  first-Holds none m h e = cc
  first-Holds (some (a, rest)) m h e = subst IsComplete (same_msg a m e) h

  zccp_msg_decode-IsComplete :
      (msg : List Frame) (m : ZccpMsg Hash) → zccp_msg_decode C (some msg) ≡ some m → IsComplete m
  unfolding zccp_msg_decode
  zccp_msg_decode-IsComplete [] m e = cc
  zccp_msg_decode-IsComplete (frame ∷ msg) m e =
      first-Holds (get_frame C msg frame) m (get_frame-Gives msg frame) e

  routed-HasFields :
      (k : Kind) (m : ZccpMsg Hash) (peer : Frame)
      → HasFields k m
      → HasFields k (record m { routing_id = some peer })
  routed-HasFields hello m peer h = h
  routed-HasFields subscribe m peer h = h
  routed-HasFields publish m peer h = h
  routed-HasFields deliver m peer h = h
  routed-HasFields _ m peer h = tt

  set_routing-IsComplete :
      (o : Option (ZccpMsg Hash)) (peer : Frame) (m : ZccpMsg Hash)
      → ((x : ZccpMsg Hash) → o ≡ some x → IsComplete x)
      → set_routing C o peer ≡ some m
      → (m.routing_id ≡ some peer) × IsComplete m
  unfolding set_routing
  set_routing-IsComplete none peer m h e = cc
  set_routing-IsComplete (some x) peer m h e =
      subst (λ y. (y.routing_id ≡ some peer) × IsComplete y) (same_msg _ m e)
        (refl, λ k ek. routed-HasFields k x peer (h x refl k ek))

  pub zccp_msg_recv-IsComplete_dealer :
      (input : Option (List Frame)) (m : ZccpMsg Hash)
      → zccp_msg_recv C false input ≡ some m
      → IsComplete m
  unfolding zccp_msg_recv
  zccp_msg_recv-IsComplete_dealer none m e = cc
  zccp_msg_recv-IsComplete_dealer (some msg) m e = zccp_msg_decode-IsComplete msg m e

  -- A message from a router socket has the routing id of its sender, and the fields.
  pub zccp_msg_recv-IsComplete :
      (input : Option (List Frame)) (m : ZccpMsg Hash)
      → zccp_msg_recv C true input ≡ some m
      → ((peer : Frame) × (m.routing_id ≡ some peer)) × IsComplete m
  unfolding zccp_msg_recv
  zccp_msg_recv-IsComplete none m e = cc
  zccp_msg_recv-IsComplete (some []) m e = cc
  zccp_msg_recv-IsComplete (some (r ∷ [])) m e = cc
  zccp_msg_recv-IsComplete (some (r ∷ frame ∷ msg)) m e =
      let (h, k) =
        set_routing-IsComplete (zccp_msg_decode C (some (frame ∷ msg))) r m
          (zccp_msg_decode-IsComplete (frame ∷ msg)) e in
      ((r, h), k)
