-- ===== src/Codec/Decode/Grammar/Exact.antt =====
-- zccp_msg_decode accepts just the octets that the grammar describes.
use zccp.Base.{
  sym, ℕ, zero, suc, ◌≡◌, refl, ap, subst, ◌∙◌, Bool, true, false, List, ◌∷◌, ◌++◌, Option, none,
  some, ◌==◌, if◌then◌else◌, arith,
}
use zccp.Czmq.{Str, Frame, Czmq}
use zccp.Codec.{
  Kind, hello, hello_ok, subscribe, subscribe_ok, publish, direct, deliver, goodbye, goodbye_ok,
  ping, ping_ok, invalid, kind_of, ZccpMsg, zccp_msg_new,
}
use zccp.Codec.Wire.Get.{
  Reader, ◌>>=◌, got, get_number1, get_number2, get_number4, get_string, get_longstr,
}
use zccp.Codec.Encode.{signature}
use zccp.Codec.Decode.{get_items, get_headers, get_fields, get_command, get_frame, zccp_msg_decode}
use zccp.Codec.Decode.Grammar.{
  Rule, Then, Yields, Number1, Number2, Number4, String, Longstr, Pairs, Dictionary, Fields,
  number_of, Command, Message,
}
use zccp.Codec.Decode.Grammar.Readers.{
  Exact, got-Exact, bind-Exact, number1-Exact, number2-Exact, number4-Exact, string-Exact,
  longstr-Exact,
}

module _ (C : Czmq) where
  open C use {Hash, zhash_new, zhash_insert}

  items-Exact : (n : ℕ) (t : Hash) → Exact (get_items C n t) (Pairs C n t)
  unfolding get_items
  items-Exact zero t = got-Exact t
  items-Exact (suc n) t = bind-Exact get_string _ String _ string-Exact (λ name.
      bind-Exact get_longstr _ Longstr _ longstr-Exact
        (λ value. items-Exact n (zhash_insert t name value)))

  headers-Exact : Exact (get_headers C) (Dictionary C)
  unfolding get_headers
  headers-Exact = bind-Exact get_number4 _ Number4 _ number4-Exact (λ n. items-Exact n zhash_new)

  -- The last field is a dictionary.
  last-Exact :
      (f : Hash → ZccpMsg Hash)
      → Exact (get_headers C >>= λ t. got (f t)) (Then (Dictionary C) (λ t. Yields (f t)))
  last-Exact f = bind-Exact (get_headers C) _ (Dictionary C) _ headers-Exact (λ t. got-Exact (f t))

  text-Exact :
      (f : Str → Hash → ZccpMsg Hash)
      → Exact
          (get_string >>= λ s. get_headers C >>= λ t. got (f s t))
          (Then String (λ s. Then (Dictionary C) (λ t. Yields (f s t))))
  text-Exact f = bind-Exact get_string _ String _ string-Exact (λ s. last-Exact (f s))

  fields-Exact :
      (k : Kind) (m : ZccpMsg Hash) (msg : List Frame)
      → Exact (get_fields C k m msg) (Fields C k m msg)
  unfolding get_fields Fields
  fields-Exact hello m msg = text-Exact (λ i t. record m { identifier = some i; headers = some t })
  fields-Exact hello_ok m msg = last-Exact (λ t. record m { headers = some t })
  fields-Exact subscribe m msg =
      text-Exact (λ x t. record m { expression = some x; headers = some t })
  fields-Exact publish m msg =
      text-Exact (λ a t. record m { address = some a; headers = some t; content = some msg })
  fields-Exact direct m msg =
      text-Exact (λ a t. record m { address = some a; headers = some t; content = some msg })
  fields-Exact deliver m msg = bind-Exact get_string _ String _ string-Exact (λ s.
      text-Exact (λ a t. record m {
        sender = some s;
        address = some a;
        headers = some t;
        content = some msg;
      }))
  fields-Exact goodbye_ok m msg = last-Exact (λ t. record m { headers = some t })
  fields-Exact subscribe_ok m msg = got-Exact m
  fields-Exact goodbye m msg = got-Exact m
  fields-Exact ping m msg = got-Exact m
  fields-Exact ping_ok m msg = got-Exact m
  fields-Exact invalid m msg = got-Exact m

  -- The numbers of the grammar are those that the decoder knows.
  kind_of-number_of : (k : Kind) → kind_of (number_of k) ≡ some k
  unfolding kind_of
  kind_of-number_of hello = refl
  kind_of-number_of _ = refl

  number_of-kind_of : (id : ℕ) (k : Kind) → kind_of id ≡ some k → id ≡ number_of k
  unfolding kind_of
  number_of-kind_of id k h = ground arith

  known : (id : ℕ) (k : Kind) → id ≡ number_of k → kind_of id ≡ some k
  known id k n = ap kind_of n ∙ kind_of-number_of k

  same_kind : (j k : Kind) → some j ≡ some k → j ≡ k
  same_kind j k e = cc

  command-Exact :
      (id : ℕ) (o : Option Kind) (msg : List Frame)
      → kind_of id ≡ o
      → Exact (get_command C id o msg) (Command C id msg)
  unfolding get_command
  command-Exact id none msg h = record {
    sound = λ bs m rest e. cc;
    complete = λ xs rest m (k, n, g). cc (known id k n, h);
  }
  command-Exact id (some j) msg h = record {
    sound = λ bs m rest e.
        let (xs, split, g) = (fields-Exact j (zccp_msg_new Hash id) msg).sound bs m rest e in
        (xs, split, (j, number_of-kind_of id j h, g));
    complete = λ xs rest m (k, n, g).
        (fields-Exact j (zccp_msg_new Hash id) msg).complete xs rest m (
          subst (λ i. Fields C i (zccp_msg_new Hash id) msg xs m)
            (same_kind k j (sym (known id k n) ∙ h)) g);
  }

  numbered-Exact :
      (msg : List Frame)
      → Exact
          (get_number1 >>= λ id. get_command C id (kind_of id) msg)
          (Then Number1 (λ id. Command C id msg))
  numbered-Exact msg =
      bind-Exact get_number1 _ Number1 _ number1-Exact
        (λ id. command-Exact id (kind_of id) msg refl)

  -- A reader behind a test.
  test-Exact :
      (b : Bool) (P : Type 0) (r : Reader (ZccpMsg Hash)) (G : Rule (ZccpMsg Hash))
      → (b ≡ true → P)
      → (P → b ≡ true)
      → Exact r G
      → Exact (if b then r else λ bs. none) (λ bs m. P × G bs m)
  test-Exact true P r G f g h = record {
    sound = λ bs m rest e. let (xs, split, k) = h.sound bs m rest e in (xs, split, (f refl, k));
    complete = λ xs rest m (p, k). h.complete xs rest m k;
  }
  test-Exact false P r G f g h = record {
    sound = λ bs m rest e. cc;
    complete = λ xs rest m (p, k). cc (g p);
  }

  is_signature : (sig : ℕ) → (sig == signature) ≡ true → sig ≡ 0xAAAA
  is_signature sig h = ground arith

  signature-is : (sig : ℕ) → sig ≡ 0xAAAA → (sig == signature) ≡ true
  signature-is sig h = ground arith

  frame-Exact : (msg : List Frame) → Exact (get_frame C msg) (Message C msg)
  unfolding get_frame
  frame-Exact msg = bind-Exact get_number2 _ Number2 _ number2-Exact (λ sig.
      test-Exact (sig == signature) (sig ≡ 0xAAAA) _ _ (is_signature sig) (signature-is sig)
        (numbered-Exact msg))

  same_message : (n m : ZccpMsg Hash) → some n ≡ some m → n ≡ m
  same_message n m e = cc

  -- zccp_msg_decode gives a message just if the data frame begins with octets that the grammar
  -- relates to that message, with the frames behind as the content. Octets behind them are left. The
  -- grammar is zccp_msg.bnf with any octets in place of *VCHAR, a text ending at its first 0.
  pub decode-grammar :
      (frame : Frame) (content : List Frame) (m : ZccpMsg Hash)
      → (zccp_msg_decode C (some (frame ∷ content)) ≡ some m
          → (xs : List ℕ) × (rest : List ℕ) × (frame ≡ xs ++ rest) × Message C content xs m)
        × ((xs : List ℕ) (rest : List ℕ)
            → frame ≡ xs ++ rest
            → Message C content xs m
            → zccp_msg_decode C (some (frame ∷ content)) ≡ some m)
  unfolding zccp_msg_decode
  decode-grammar frame content m = (
    λ e. parsed (get_frame C content frame) refl e,
    λ xs rest split g.
        ap
          (λ (o : Option (ZccpMsg Hash × List ℕ)). elim o as (λ x. Option (ZccpMsg Hash)) [
            | none ↦ none
            | some (n, left) ↦ some n
          ])
          (ap (get_frame C content) split ∙ (frame-Exact content).complete xs rest m g),
  )
    where
      parsed :
          (o : Option (ZccpMsg Hash × List ℕ))
          → get_frame C content frame ≡ o
          → (elim o as (λ x. Option (ZccpMsg Hash)) [ none ↦ none | some (n, left) ↦ some n ])
            ≡ some m
          → (xs : List ℕ) × (rest : List ℕ) × (frame ≡ xs ++ rest) × Message C content xs m
      parsed none h e = cc
      parsed (some (n, left)) h e =
          let (xs, split, g) = (frame-Exact content).sound frame n left h in
          (xs, left, split, subst (Message C content xs) (same_message n m e) g)
