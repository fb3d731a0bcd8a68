-- ===== src/Examples/Messages.antt =====
-- A message of control/sjg_control/protocol.py that arrives in pieces.
use scrum_jail_governance_pl.Base.{ℕ, List, [], ◌∷◌, ◌++◌, ◌≡◌, refl, length}
use scrum_jail_governance_pl.Json.{Members, Arguments, object, members_of}
use scrum_jail_governance_pl.Protocol.{
  Connection, Loaded, parsed, bytes, read_exact, ok, encode_message,
}
use scrum_jail_governance_pl.Protocol.Reads.{Reads, read_exact-Reads}
use scrum_jail_governance_pl.Protocol.RoundTrip.{IsReceived, receive_message-encode_message}

abbrev dumps : Arguments → List ℕ
dumps value = 123 ∷ 125 ∷ []

abbrev loads : List ℕ → Loaded
loads body = parsed (object Members.end "{}")

-- The length in two pieces, the body in two, and one byte of the next message.
abbrev pieces : Connection
pieces = (0, []) ∷ (0, 0 ∷ 2 ∷ []) ∷ (123, []) ∷ (125, 7 ∷ []) ∷ []

abbrev sent : List ℕ
sent = 0 ∷ 0 ∷ 0 ∷ 2 ∷ 123 ∷ 125 ∷ []

encoded : encode_message dumps loads [] ≡ ok sent
unfolding encode_message length
encoded = refl

arrives : bytes pieces ≡ sent ++ (7 ∷ [])
unfolding bytes
arrives = refl

receive_message-encode_message_example : IsReceived dumps loads pieces [] (7 ∷ [])
unfolding members_of
receive_message-encode_message_example =
    receive_message-encode_message dumps loads [] sent (7 ∷ []) pieces (object Members.end "{}") []
      encoded arrives refl refl

read_exact-Reads_example : Reads pieces [] 4 (read_exact 4 pieces)
read_exact-Reads_example = read_exact-Reads 4 pieces
