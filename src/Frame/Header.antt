-- ===== src/Frame/Header.antt =====
-- The header is read back as it was written, and written back as it was read.
use sing_ewp.Frame.{put_header, parse_header}
use sing_ewp.Bytes.{
  IsArray, put_uint16, put_uint32, put_uint64, uint64, uint32-put_uint32, uint16-put_uint16,
  uint64-put_uint64, put_uint32-uint32, put_uint16-uint16,
}
use sing_ewp.Prelude.{ℕ, ◌^◌, ◌<◌, ◌≡◌, refl, arith, List, [], ◌∷◌, length, take, drop}

pub length-put_header : (l c t m d : ℕ) → length (put_header l c t m d) ≡ 17
unfolding put_header put_uint32 put_uint64 put_uint16
length-put_header l c t m d = refl

pub parse_header-put_header :
    (l c t m d : ℕ)
    → l < 2 ^ 32
    → c < 2 ^ 64
    → m < 2 ^ 16
    → d < 2 ^ 16
    → parse_header (put_header l c t m d)
      ≡ record { frame_len = l; counter = c; type = t; meta_len = m; pad_len = d }
unfolding parse_header put_header put_uint32 put_uint64 put_uint16 take drop
parse_header-put_header l c t m d hl hc hm hd =
    ground
      (arith, uint32-put_uint32 l, uint64-put_uint64 c, uint16-put_uint16 m, uint16-put_uint16 d)

put_uint64-uint64 : (xs : List ℕ) → IsArray 8 xs → put_uint64 (uint64 xs) ≡ xs
unfolding put_uint64 uint64
put_uint64-uint64 (a ∷ b ∷ c ∷ d ∷ e ∷ f ∷ g ∷ h ∷ []) w = ground arith
put_uint64-uint64 _ w = absurd (omega arith)

pub put_header-parse_header :
    (hdr : List ℕ)
    → IsArray 17 hdr
    → let h = parse_header hdr in put_header h.frame_len h.counter h.type h.meta_len h.pad_len ≡ hdr
unfolding parse_header put_header take drop
put_header-parse_header (a ∷ b ∷ c ∷ d ∷ e ∷ f ∷ g ∷ h ∷ i ∷ j ∷ k ∷ l ∷ t ∷ m ∷ n ∷ o ∷ q ∷ []) w =
    ground (
      arith,
      put_uint32-uint32 (a ∷ b ∷ c ∷ d ∷ []),
      put_uint64-uint64 (e ∷ f ∷ g ∷ h ∷ i ∷ j ∷ k ∷ l ∷ []),
      put_uint16-uint16 (m ∷ n ∷ []),
      put_uint16-uint16 (o ∷ q ∷ []),
    )
put_header-parse_header _ w = absurd (omega arith)
