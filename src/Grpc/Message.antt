-- ===== src/Grpc/Message.antt =====
-- `format_message` of tanu-core/src/grpc.rs. Bytes are numbers below 256; `String::from_utf8` is a
-- parameter. An offset is a `usize`, of sixteen digits at most.
use tanu.Prelude.{
  ℕ, zero, suc, ◌+◌, ◌-◌, ◌*◌, ◌/◌, ◌%◌, ◌==◌, Bool, ◌&&◌, ◌||◌, List, [], ◌∷◌, ◌++◌, map, Option,
  none, some, Text, codes, leb, ltb, all, is_empty, join, length, if◌then◌else◌,
}

abbrev hex_digit : ℕ → ℕ
hex_digit d = if ltb d 10 then 48 + d else 87 + d

-- `{:02x}` of a byte
abbrev hex_byte : ℕ → Text
hex_byte b = hex_digit (b / 16) ∷ hex_digit (b % 16) ∷ []

-- the last digits of a number
abbrev hex_digits : ℕ → ℕ → Text
hex_digits zero n = []
hex_digits (suc k) n = hex_digits k (n / 16) ++ (hex_digit (n % 16) ∷ [])

-- at most as many zeros are taken from the left
abbrev trim_zeros : ℕ → Text → Text
trim_zeros zero t = t
trim_zeros (suc k) [] = []
trim_zeros (suc k) (c ∷ t) = let rest = trim_zeros k t in if c == 48 then rest else c ∷ t

-- `{:04x}`
unfoldable pub offset_text : ℕ → Text
offset_text n = trim_zeros 12 (hex_digits 16 n)

abbrev spaces : ℕ → Text
spaces zero = []
spaces (suc n) = 32 ∷ spaces n

-- `{:48}`
abbrev pad_to : ℕ → Text → Text
pad_to width t = t ++ spaces (width - length t)

abbrev is_ascii_graphic : ℕ → Bool
is_ascii_graphic c = leb 33 c && leb c 126

abbrev is_ascii_whitespace : ℕ → Bool
is_ascii_whitespace c = (c == 32) || (c == 9) || (c == 10) || (c == 12) || (c == 13)

abbrev shown_byte : ℕ → ℕ
shown_byte b = if is_ascii_graphic b then b else 46

-- the bytes of a chunk in hexadecimal, a space after each
unfoldable pub hex_column : List ℕ → Text
hex_column [] = []
hex_column (b ∷ chunk) = hex_byte b ++ (32 ∷ hex_column chunk)

-- `bytes.chunks(16)`: `room` is what the chunk may still take, which has `chunk` already
chunks_from : ℕ → List ℕ → List ℕ → List (List ℕ)
chunks_from room chunk [] = if is_empty chunk then [] else chunk ∷ []
chunks_from zero chunk (b ∷ bytes) = chunk ∷ chunks_from 15 (b ∷ []) bytes
chunks_from (suc room) chunk (b ∷ bytes) = chunks_from room (chunk ++ (b ∷ [])) bytes

unfoldable pub chunks : List ℕ → List (List ℕ)
unfolding chunks_from
chunks bytes = chunks_from 16 [] bytes

hex_line : ℕ → List ℕ → Text
unfolding offset_text hex_column
hex_line i chunk =
    offset_text (i * 16)
    ++ codes "  "
    ++ pad_to 48 (hex_column chunk)
    ++ codes "  "
    ++ map shown_byte chunk

-- `enumerate` and `map`
hex_lines : ℕ → List (List ℕ) → List Text
unfolding hex_line
hex_lines i [] = []
hex_lines i (chunk ∷ cs) = hex_line i chunk ∷ hex_lines (i + 1) cs

hex_dump : List ℕ → Text
unfolding hex_lines chunks join
hex_dump bytes = join 10 (hex_lines 0 (chunks bytes))

-- the text, if all of it can be printed
printable : List ℕ → Option Text → Text
unfolding hex_dump
printable bytes none = hex_dump bytes
printable bytes (some s) =
    if all (λ c. is_ascii_graphic c || is_ascii_whitespace c) s then s else hex_dump bytes

unfoldable pub format_message : (List ℕ → Option Text) → List ℕ → Text
unfolding printable
format_message from_utf8 bytes =
    if is_empty bytes then codes "<empty>" else printable bytes (from_utf8 bytes)

-- a digit, and a column of bytes, read back
abbrev digit_value : ℕ → ℕ
digit_value c = if ltb c 58 then c - 48 else c - 87

abbrev pub read_column : Text → List ℕ
read_column [] = []
read_column (h ∷ []) = []
read_column (h ∷ l ∷ []) = []
read_column (h ∷ l ∷ s ∷ t) = (digit_value h * 16 + digit_value l) ∷ read_column t

abbrev pub concat : List (List ℕ) → List ℕ
concat [] = []
concat (c ∷ cs) = c ++ concat cs
