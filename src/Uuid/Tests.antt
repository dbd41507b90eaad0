-- ===== src/Uuid/Tests.antt =====
-- Runs of ParseUUID.
use sing_ewp.Uuid.Canonical.{parse_uuid-canonical, canonical}
use sing_ewp.Uuid.{without_hyphens, hex_decode, hex_value, parse_uuid}
use sing_ewp.Errors.{ok}
use sing_ewp.Prelude.{ℕ, replicate, List, ◌≡◌, length-replicate, ◌++◌, arith, refl, All-replicate}
use sing_ewp.Bytes.{IsByte}

abbrev uuid_1 : List ℕ
uuid_1 = replicate 16 171

-- 16 times A, 16 times b
upper_case :
    parse_uuid (replicate 16 65 ++ replicate 16 98) ≡ ok (replicate 8 170 ++ replicate 8 187)
unfolding parse_uuid without_hyphens hex_decode hex_value replicate
upper_case = refl

parse_uuid-canonical_example : parse_uuid (canonical uuid_1) ≡ ok uuid_1
parse_uuid-canonical_example =
    parse_uuid-canonical uuid_1 (length-replicate 16 171, All-replicate IsByte 16 171 (omega arith))
