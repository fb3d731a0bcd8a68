-- ===== src/Protocol/RoundTrip.antt =====
-- A message of control/sjg_control/protocol.py, sent and received.
use scrum_jail_governance_pl.Base.{
  ℕ, false, some, List, [], ◌∷◌, ◌++◌, ◌≡◌, refl, arith, if◌then◌else◌, ltb, length, sym, ap, ◌∙◌,
  Bool-cases, inl, inr,
}
use mathlib.Core.List.{append_assoc, tail-eq_of_cons-eq}
use scrum_jail_governance_pl.Json.{Value, Arguments, as_object}
use scrum_jail_governance_pl.Protocol.{
  Connection, Result, ok, fault, Loaded, parsed, bytes, read_exact, too_long, max_message, pack,
  unpack-pack, encode_message, decode, receive_body, receive_message,
}
use scrum_jail_governance_pl.Protocol.Reads.{Reads, whole, cut, read_exact-Reads, length-append}

-- Texts of one length that begin the same text are the same.
append-split :
    (xs ys us vs : List ℕ) → length xs ≡ length ys → xs ++ us ≡ ys ++ vs → (xs ≡ ys) × (us ≡ vs)
unfolding length
append-split [] [] us vs n e = (refl, e)
append-split [] (y ∷ ys) us vs n e = absurd (omega arith)
append-split (x ∷ xs) [] us vs n e = absurd (omega arith)
append-split (x ∷ xs) (y ∷ ys) us vs n e =
    let (same, others) = append-split xs ys us vs (omega arith) (tail-eq_of_cons-eq e) in
    (cc, others)

next_of :
    (connection : Connection) (message more : List ℕ) (result : Result (List ℕ × Connection))
    → bytes connection ≡ message ++ more
    → read_exact (length message) connection ≡ result
    → Reads connection [] (length message) result
    → (left : Connection) × (read_exact (length message) connection ≡ ok (message, left))
      × (bytes left ≡ more)
unfolding length
next_of connection message more result e r (whole taken left joined n) =
    let (same, rest) =
      append-split taken message (bytes left) more (ground (arith, n)) (sym joined ∙ e) in
    (left, r ∙ ap (λ bs. ok (bs, left)) same, rest)
next_of connection message more result e r (cut n) =
    absurd (ground (arith, n, ap length e, length-append message more))

-- What is read of a connection that begins with `message`.
read_exact_next :
    (connection : Connection) (message more : List ℕ)
    → bytes connection ≡ message ++ more
    → (left : Connection) × (read_exact (length message) connection ≡ ok (message, left))
      × (bytes left ≡ more)
read_exact_next connection message more e =
    next_of connection message more (read_exact (length message) connection) e refl
      (read_exact-Reads (length message) connection)

abbrev ok_or : List ℕ → Result (List ℕ) → List ℕ
ok_or default (ok a) = a
ok_or default _ = default

ok_same : (a b : List ℕ) → ok a ≡ ok b → a ≡ b
ok_same a b e = ap (ok_or a) e

-- The message and what comes behind it.
pub record IsReceived (dumps : Arguments → List ℕ) (loads : List ℕ → Loaded)
    (connection : Connection) (message : Arguments) (more : List ℕ) : Type 0 where
  pub left : Connection
  pub received : receive_message dumps loads connection ≡ ok (message, left)
  pub others : bytes left ≡ more

module _ (dumps : Arguments → List ℕ) (loads : List ℕ → Loaded) where
  decode-read :
      (body : List ℕ) (left : Connection) (value : Value) (message : Arguments)
      → loads body ≡ parsed value
      → as_object value ≡ some message
      → decode dumps loads (ok (body, left)) ≡ ok (message, left)
  unfolding decode
  decode-read body left value message l o = ground (arith, l, o)

  -- The body of a length that is allowed.
  body-read :
      (body : List ℕ) (left : Connection) (result : Result (List ℕ × Connection))
      → ltb max_message (length body) ≡ false
      → read_exact (length body) left ≡ result
      → receive_body dumps loads (ok (pack (length body), left)) ≡ decode dumps loads result
  unfolding receive_body
  body-read body left result small r =
      ap (λ n. if ltb max_message n then fault too_long else decode dumps loads (read_exact n left))
        (unpack-pack (length body))
      ∙ ap (λ t. if t then fault too_long else decode dumps loads (read_exact (length body) left))
          small
      ∙ ap (decode dumps loads) r

  encoded_small :
      (value : Arguments) (sent : List ℕ)
      → encode_message dumps loads value ≡ ok sent
      → (ltb max_message (length (dumps value)) ≡ false)
        × (sent ≡ pack (length (dumps value)) ++ dumps value)
  unfolding encode_message
  encoded_small value sent e = elim (Bool-cases (ltb max_message (length (dumps value)))) [
    | inl long ↦ absurd (ground (arith, e, long))
    | inr small ↦
        let same : ok (pack (length (dumps value)) ++ dumps value) ≡ ok sent =
          ground (arith, e, small) in
        (small, sym (ok_same _ _ same))
  ]

  -- A message that was encoded, and has arrived at the front of a connection in whatever pieces, is
  -- received as what `json.loads` reads of its body, and the bytes behind it are left for the next
  -- message.
  pub receive_message-encode_message :
      (value : Arguments) (sent more : List ℕ) (connection : Connection) (decoded : Value)
      (message : Arguments)
      → encode_message dumps loads value ≡ ok sent
      → bytes connection ≡ sent ++ more
      → loads (dumps value) ≡ parsed decoded
      → as_object decoded ≡ some message
      → IsReceived dumps loads connection message more
  unfolding receive_message length
  receive_message-encode_message value sent more connection decoded message s b l o =
      let body : List ℕ = dumps value in
      let (small, whole_message) = encoded_small value sent s in
      let (behind, r, e) =
        read_exact_next connection (pack (length body)) (body ++ more)
          (b ∙ ap (λ bs. bs ++ more) whole_message ∙ append_assoc (pack (length body)) body more) in
      let (left, r', e') = read_exact_next behind body more e in
      record {
        left = left;
        received =
            ap (receive_body dumps loads) r
            ∙ body-read body behind (ok (body, left)) small r'
            ∙ decode-read body left decoded message l o;
        others = e';
      }
