-- ===== src/Framer/Tests.antt =====
-- Runs of the framer.
use sing_ewp.Bytes.{put_uint32}
use sing_ewp.Errors.{ok}
use sing_ewp.Framer.{send_message, Writer, write}
use sing_ewp.Framer.Order.{read_messages-send_messages, read_messages, send_messages}
use sing_ewp.Prelude.{◌++◌, List, [], refl, ℕ, ◌≡◌, none, ◌∷◌}

abbrev steady : Writer
steady _ = none

abbrev two : List (List ℕ)
two = (7 ∷ 8 ∷ []) ∷ [] ∷ []

abbrev two_wire : List ℕ
two_wire = 0 ∷ 0 ∷ 0 ∷ 2 ∷ 7 ∷ 8 ∷ 0 ∷ 0 ∷ 0 ∷ 0 ∷ []

two-sent : send_messages steady two (5 ∷ []) ≡ (5 ∷ two_wire, none)
unfolding send_messages send_message write put_uint32
two-sent = refl

read_messages-send_messages_example :
    (b : List ℕ) × (5 ∷ two_wire ≡ (5 ∷ []) ++ b)
    × (read_messages 2 (b ++ (9 ∷ [])) ≡ (9 ∷ [], ok two))
read_messages-send_messages_example =
    read_messages-send_messages steady two (5 ∷ []) (5 ∷ two_wire) (9 ∷ []) two-sent
