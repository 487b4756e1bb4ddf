-- ===== src/Stream/Utf8.antt =====
-- `codecs.getincrementaldecoder("utf-8")()`: bytes to text, a byte at a time, with the bytes of an
-- unfinished character kept for the next call.
use vllm_source_gateway.Base.{
  ℕ, List, [], ◌∷◌, ◌++◌, Bool, ◌&&◌, Option, none, some, leb, ltb, ◌==◌, ◌+◌, ◌-◌, ◌*◌,
  if◌then◌else◌,
}
use vllm_source_gateway.Text.{Text}

-- Inside a character: how many bytes are to come, between which bounds the next one lies, and the
-- bits so far. Between characters `needed` is 0.
pub record Decoder : Type 0 where
  pub needed : ℕ
  pub low : ℕ
  pub high : ℕ
  pub bits : ℕ

abbrev pub between_characters : Decoder
between_characters = record { needed = 0; low = 0; high = 0; bits = 0 }

-- The text, with one more character where a byte completes it.
abbrev pub Decoded : Type 0
Decoded = Text × Decoder

unfoldable pub lead_byte : ℕ → Option Decoded
lead_byte b =
    if ltb b 0x80
    then some (b ∷ [], between_characters)
    else if leb 0xc2 b && leb b 0xdf
    then some ([], record { needed = 1; low = 0x80; high = 0xbf; bits = b - 0xc0 })
    else if leb 0xe0 b && leb b 0xef
    then some (
      [],
      record {
        needed = 2;
        low = if b == 0xe0 then 0xa0 else 0x80;
        high = if b == 0xed then 0x9f else 0xbf;
        bits = b - 0xe0;
      },
    )
    else if leb 0xf0 b && leb b 0xf4
    then some (
      [],
      record {
        needed = 3;
        low = if b == 0xf0 then 0x90 else 0x80;
        high = if b == 0xf4 then 0x8f else 0xbf;
        bits = b - 0xf0;
      },
    )
    else none

unfoldable pub next_byte : Decoder → ℕ → Option Decoded
next_byte d b =
    let bits = d.bits * 64 + (b - 0x80) in
    if leb d.low b && leb b d.high
    then (if d.needed == 1
        then some (bits ∷ [], between_characters)
        else some ([], record { needed = d.needed - 1; low = 0x80; high = 0xbf; bits = bits }))
    else none

unfoldable pub decode_byte : Decoder → ℕ → Option Decoded
unfolding lead_byte next_byte
decode_byte d b = if d.needed == 0 then lead_byte b else next_byte d b

-- What was decoded, then the rest.
abbrev pub behind : Text → Option Decoded → Option Decoded
behind text none = none
behind text (some (more, d)) = some (text ++ more, d)

-- decoder.decode(chunk): `none` is UnicodeDecodeError
unfoldable pub decode : Decoder → List ℕ → Option Decoded
unfolding decode_byte
decode d [] = some ([], d)
decode d (b ∷ bytes) = elim (decode_byte d b) [
  | none ↦ none
  | some (text, next) ↦ behind text (decode next bytes)
]

-- decoder.decode(b"", final=True), which yields no text
unfoldable pub is_complete : Decoder → Bool
is_complete d = d.needed == 0
