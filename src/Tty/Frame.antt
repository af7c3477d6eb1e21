-- ===== src/Tty/Frame.antt =====
-- The messages of tty_reader/tty_reader.zig on the wire: a header of four bytes, and what follows it.
use mathlib.Core.List.{append_assoc, append-nil}
use renogy_x.Base.{ℕ, ◌+◌, ◌^◌, ◌<◌}
use renogy_x.Base.{◌≡◌, refl, ap, sym, ◌∙◌, arith}
use renogy_x.Base.{List, [], ◌∷◌, ◌++◌}
use renogy_x.Base.{length, take, drop, length-append}
use renogy_x.Base.{drop-add, drop_first, take_first}
use renogy_x.Tty.Parse.{Parse, IsParse}

module _ (P : Parse) where
  -- A message as the publisher sends it: the header says its code, zero, and its size.
  pub record Frame : Type 0 where
    pub size : ℕ
    pub payload : List ℕ
    pub some_payload : 0 < length payload
    pub sized : size ≡ 4 + length payload
    pub fits : size < 2 ^ 16

  abbrev pub bytes : Frame → List ℕ
  bytes f = P.out_u16_le 0 ++ (P.out_u16_le f.size ++ f.payload)

  unfoldable pub stream_of : List Frame → List ℕ
  stream_of [] = []
  stream_of (f ∷ fs) = bytes f ++ stream_of fs

  module _ (laws : IsParse P) where
    pub length-bytes : (f : Frame) → length (bytes f) ≡ f.size
    length-bytes f = omega (
      arith,
      length-append (P.out_u16_le 0) (P.out_u16_le f.size ++ f.payload),
      length-append (P.out_u16_le f.size) f.payload,
      laws.size 0,
      laws.size f.size,
      f.sized,
    )

    pub drop-bytes : (f : Frame) → drop 4 (bytes f) ≡ f.payload
    drop-bytes f =
        sym (drop-add 2 2 4 (bytes f) refl)
        ∙ ap (drop 2) (drop_first 2 (P.out_u16_le 0) _ (laws.size 0))
        ∙ drop_first 2 (P.out_u16_le f.size) f.payload (laws.size f.size)

    take-bytes : (f : Frame) → take 4 (bytes f) ≡ P.out_u16_le 0 ++ P.out_u16_le f.size
    take-bytes f =
        let header = P.out_u16_le 0 ++ P.out_u16_le f.size in
        let size : length header ≡ 4 = omega (
          arith,
          length-append (P.out_u16_le 0) (P.out_u16_le f.size),
          laws.size 0,
          laws.size f.size,
        ) in
        ap (take 4) (sym (append_assoc (P.out_u16_le 0) (P.out_u16_le f.size) f.payload))
        ∙ take_first 4 header f.payload size

    pub read_code : (f : Frame) → P.in_u16_le (take 4 (bytes f)) ≡ (0, P.out_u16_le f.size)
    read_code f = ap P.in_u16_le (take-bytes f) ∙ laws.back 0 (P.out_u16_le f.size) (omega arith)

    pub read_size : (f : Frame) → P.in_u16_le (P.out_u16_le f.size) ≡ (f.size, [])
    read_size f =
        ap P.in_u16_le (sym (append-nil (P.out_u16_le f.size))) ∙ laws.back f.size [] f.fits
