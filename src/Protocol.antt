-- ===== src/Protocol.antt =====
-- control/sjg_control/protocol.py: messages of JSON behind their length. A byte is a number below 256,
-- and a connection is what `recv` will find: pieces of bytes in the order of their arrival, each with
-- at least one, and then the end. `json.dumps` and `json.loads` are parameters.
pub mod Reads
pub mod RoundTrip
use Prim.Native.Nat.{◌/◌, ◌%◌}
use scrum_jail_governance_pl.Base.{
  ℕ, zero, suc, ◌+◌, ◌*◌, ◌-◌, ◌≤◌, ◌<◌, String, ◌==◌, Bool, true, false, Option, none, some, List,
  [], ◌∷◌, ◌++◌, ◌≡◌, refl, arith, if◌then◌else◌, leb, ltb, length, sym, ap, ◌∙◌, subst, is_some,
  strip_prefix, not,
}
use scrum_jail_governance_pl.Json.{Value, Arguments, object, as_object}

abbrev pub max_message : ℕ
max_message = 1048576

-- A piece: its first byte and the others.
abbrev pub Piece : Type 0
Piece = ℕ × List ℕ

abbrev pub Connection : Type 0
Connection = List Piece

pub data Fault : Type 0 where
  too_long truncated not_json not_text not_an_object relative_path : Fault

-- What `json.loads` comes to: a value, a JSONDecodeError, or the UnicodeDecodeError of bad UTF-8.
pub data Loaded : Type 0 where
  parsed : Value → Loaded
  malformed undecodable : Loaded

-- A value, an exception (all are ProtocolErrors but `not_text`), or a loop that has not ended within its fuel.
pub data Result (A : Type 0) : Type 0 where
  ok : A → Result A
  fault : Fault → Result A
  out_of_fuel : Result A

-- struct.pack("!I", n)
abbrev pub pack : ℕ → List ℕ
pack n = n / 16777216 ∷ n / 65536 % 256 ∷ n / 256 % 256 ∷ n % 256 ∷ []

-- struct.unpack("!I", bytes)[0], of four bytes
abbrev pub unpack : List ℕ → ℕ
unpack [] = 0
unpack (a ∷ []) = a
unpack (a ∷ b ∷ []) = a * 256 + b
unpack (a ∷ b ∷ c ∷ []) = (a * 256 + b) * 256 + c
unpack (a ∷ b ∷ c ∷ d ∷ rest) = ((a * 256 + b) * 256 + c) * 256 + d

pub unpack-pack : (n : ℕ) → unpack (pack n) ≡ n
unpack-pack n = omega arith

-- The bytes that are still to come.
unfoldable pub bytes : Connection → List ℕ
bytes [] = []
bytes ((b, bs) ∷ rest) = b ∷ (bs ++ bytes rest)

-- The first bytes of a piece, at most n, and the others.
unfoldable pub split : ℕ → List ℕ → List ℕ × List ℕ
split zero bs = ([], bs)
split (suc n) [] = ([], [])
split (suc n) (b ∷ bs) = let (first, others) = split n bs in (b ∷ first, others)

abbrev pub put_back : List ℕ → Connection → Connection
put_back [] rest = rest
put_back (b ∷ bs) rest = (b, bs) ∷ rest

-- connection.recv(n): no bytes at the end of the connection only.
unfoldable pub recv : ℕ → Connection → List ℕ × Connection
unfolding split
recv n [] = ([], [])
recv n ((b, bs) ∷ rest) = let (first, others) = split n (b ∷ bs) in (first, put_back others rest)

-- The loop of `_read_exact`.
unfoldable pub read_loop : ℕ → List ℕ → ℕ → Connection → Result (List ℕ × Connection)
unfolding recv length
read_loop zero chunks size connection =
    if ltb (length chunks) size then out_of_fuel else ok (chunks, connection)
read_loop (suc fuel) chunks size connection =
    let (chunk, rest) = recv (size - length chunks) connection in
    elim (ltb (length chunks) size) [
      | false ↦ ok (chunks, connection)
      | true ↦ elim chunk [
        | [] ↦ fault truncated
        | ◌∷◌ b bs ↦ read_loop fuel (chunks ++ (b ∷ bs)) size rest
      ]
    ]

-- _read_exact: every turn of the loop but the last brings a byte, so `size` turns are enough.
unfoldable pub read_exact : ℕ → Connection → Result (List ℕ × Connection)
unfolding read_loop
read_exact size connection = read_loop size [] size connection

module _ (dumps : Arguments → List ℕ) (loads : List ℕ → Loaded) where
  -- encode_message
  unfoldable pub encode_message : Arguments → Result (List ℕ)
  encode_message value =
      let body = dumps value in
      if ltb max_message (length body) then fault too_long else ok (pack (length body) ++ body)

  -- After the body.
  unfoldable pub decode : Result (List ℕ × Connection) → Result (Arguments × Connection)
  decode (fault error) = fault error
  decode out_of_fuel = out_of_fuel
  decode (ok (body, rest)) = elim (loads body) [
    | malformed ↦ fault not_json
    | undecodable ↦ fault not_text
    | parsed value ↦ elim (as_object value) [
      | none ↦ fault not_an_object
      | some message ↦ ok (message, rest)
    ]
  ]

  -- After the length.
  unfoldable pub receive_body : Result (List ℕ × Connection) → Result (Arguments × Connection)
  unfolding decode read_exact
  receive_body (fault error) = fault error
  receive_body out_of_fuel = out_of_fuel
  receive_body (ok (size, rest)) =
      if ltb max_message (unpack size)
      then fault too_long
      else decode (read_exact (unpack size) rest)

  -- receive_message
  unfoldable pub receive_message : Connection → Result (Arguments × Connection)
  unfolding receive_body
  receive_message connection = receive_body (read_exact 4 connection)

  -- request: what is sent, and the reply; the connection's own errors are the socket's.
  unfoldable pub request :
      String → Arguments → Connection → Option (List ℕ) × Result (Arguments × Connection)
  unfolding encode_message receive_message
  request path value connection =
      if not (is_some (strip_prefix "/" path))
      then (none, fault relative_path)
      else elim (encode_message value) [
        | ok sent ↦ (some sent, receive_message connection)
        | fault error ↦ (none, fault error)
        | out_of_fuel ↦ (none, out_of_fuel)
      ]
