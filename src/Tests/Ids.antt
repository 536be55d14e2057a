-- ===== src/Tests/Ids.antt =====
-- The identities of one delivery.
use open_mercato_durable.Common.{ℕ, ◌≡◌, refl, some, List, [], ◌∷◌, ◌++◌}
use open_mercato_durable.Ids.Texts.{
  NamedDelivery, id_prefix, delivery_id, parse_delivery_id, slice_idempotency_key,
}
use open_mercato_durable.Ids.RoundTrip.{
  parse_delivery_id-delivery_id, Reads, parse_delivery_id-some,
}

-- The text "a-7" has a hyphen of its own.
abbrev hyphenated : NamedDelivery
hyphenated = record { job_id = b'a' ∷ b'-' ∷ b'7' ∷ []; seq = 12; redrives = 3 }

delivery_id_test :
    delivery_id hyphenated
    ≡ b'd' ∷ b'w' ∷ b'-' ∷ b'a' ∷ b'-' ∷ b'7' ∷ b'-' ∷ b'1' ∷ b'2' ∷ b'-' ∷ b'3' ∷ []
unfolding delivery_id
delivery_id_test = refl

parse_delivery_id-delivery_id_example : parse_delivery_id (delivery_id hyphenated) ≡ some hyphenated
unfolding open_mercato_durable.Ids.Texts.all_in_line
parse_delivery_id-delivery_id_example = parse_delivery_id-delivery_id hyphenated refl

parse_delivery_id-some_example :
    (s : List ℕ) × (delivery_id hyphenated ≡ id_prefix ++ s) × Reads s hyphenated
parse_delivery_id-some_example =
    parse_delivery_id-some (delivery_id hyphenated) hyphenated parse_delivery_id-delivery_id_example

abbrev colon_id : List ℕ
colon_id = b'a' ∷ b':' ∷ []
