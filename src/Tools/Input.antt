-- ===== src/Tools/Input.antt =====
-- tools/sm2cvt.py and tools/gmcvt.py: reading and decoding the input, which the two tools do alike.
pub mod Base64
use sip_protocol.Prelude.{
  ℕ, ◌+◌, ◌-◌, ◌%◌, List, [], ◌∷◌, ◌++◌, map, Bool, true, false, not, ◌&&◌, ◌||◌, Option, none,
  some, Result, ok, err, ◌>>=◌, ◌>>◌, guard, value_error, length, drop, replicate, leb, ◌==◌,
  list_eq, if◌then◌else◌, codes,
}
use sip_protocol.Python.Base64.{b64_value, b64decode}
use sip_protocol.Python.Hex.{fromhex}
use sip_protocol.Crypto.Primitives.{Bytes}

-- Standard input, and the files as texts.
pub record World : Type 0 where
  pub stdin : Result (List ℕ)
  pub read_file : List ℕ → Result (List ℕ)
  pub write_file : List ℕ → List ℕ → Result (Unit {0})

-- the arguments of `_add_input_args`
pub record Source : Type 0 where
  pub argument : Option (List ℕ)
  pub file : Option (List ℕ)
  pub hex_channel : Bool
  pub b64_channel : Bool

-- what `str.split()` splits at
unfoldable pub is_split_space : ℕ → Bool
is_split_space c =
    leb 9 c && leb c 13
    || (leb 28 c && leb c 32
        || (c == 133
            || (c == 160
                || (c == 5760
                    || (leb 8192 c && leb c 8202
                        || (leb 8232 c && leb c 8233
                            || (c == 8239 || (c == 8287 || c == 12288))))))))

-- `"".join(text.split())`
unfoldable pub remove_spaces : List ℕ → List ℕ
unfolding is_split_space
remove_spaces [] = []
remove_spaces (c ∷ cs) = let rest = remove_spaces cs in if is_split_space c then rest else c ∷ rest

-- `cleaned[:2].lower() == "0x"`
unfoldable pub starts_0x : List ℕ → Bool
starts_0x [] = false
starts_0x (c ∷ []) = false
starts_0x (c ∷ d ∷ cs) = c == 48 && (d == 120 || d == 88)

-- `_read_text`
unfoldable pub read_file_or_stdin : World → Option (List ℕ) → Result (List ℕ)
read_file_or_stdin world none = world.stdin
read_file_or_stdin world (some path) =
    if list_eq path (codes "-") then world.stdin else world.read_file path

unfoldable pub read_text : World → Option (List ℕ) → Option (List ℕ) → Result (List ℕ)
unfolding read_file_or_stdin
read_text world none file = read_file_or_stdin world file
read_text world (some t) file =
    if list_eq t (codes "-") then read_file_or_stdin world file else ok t

-- `.replace("-", "+").replace("_", "/")`
unfoldable pub to_standard : ℕ → ℕ
to_standard c = if c == 45 then 43 else if c == 95 then 47 else c

unfoldable pub is_data : Option ℕ → Bool
is_data none = false
is_data (some v) = true

unfoldable pub is_padding : List ℕ → Bool
is_padding [] = true
is_padding (c ∷ []) = c == 61
is_padding (c ∷ d ∷ []) = c == 61 && d == 61
is_padding (c ∷ d ∷ e ∷ cs) = false

-- what `validate=True` asks for: data, then at most two characters of padding
unfoldable pub is_strict : List ℕ → Bool
unfolding is_data is_padding
is_strict [] = true
is_strict (c ∷ cs) =
    let rest = is_strict cs in if is_data (b64_value c) then rest else is_padding (c ∷ cs)

-- `_decode_b64`
unfoldable pub decode_b64 : List ℕ → Result Bytes
unfolding to_standard
decode_b64 t = do
  let cleaned = remove_spaces t
  guard (not (starts_0x cleaned)) value_error
  let normalized = map to_standard cleaned ++ replicate ((4 - length cleaned % 4) % 4) 61
  guard (is_strict normalized) value_error
  b64decode normalized

-- a text without its prefix `0x`
unfoldable pub strip_0x : List ℕ → List ℕ
strip_0x cleaned = if starts_0x cleaned then drop 2 cleaned else cleaned

-- `_decode_hex`
unfoldable pub decode_hex : List ℕ → Result Bytes
decode_hex t = fromhex (strip_0x (remove_spaces t))
