-- ===== src/Jdwp/Files.antt =====
-- jdwp/fileManager.c: strings and files of debug data. A string is the list of its bytes, none of
-- them zero, without the terminator; storage is always granted but for the file's.
pub mod Laws
use sedona_vm_debug.Base.{
  ℕ, zero, suc, ◌+◌, ◌-◌, ◌*◌, ◌^◌, List, [], ◌∷◌, ◌++◌, Option, none, some, Bool, not, ◌||◌, ◌==◌,
  ltb, if◌then◌else◌, length, take, drop, to_u8,
}
use sedona_vm_debug.Memory.{◌>>=◌, Outcome, done, undefined, to_size, Allocator}

-- `u2Tou1`: a character whose low byte is zero ends the string that is stored.
unfoldable pub u2_to_u1 : List ℕ → List ℕ
u2_to_u1 [] = []
u2_to_u1 (c ∷ s2) = let later = u2_to_u1 s2 in if to_u8 c == 0 then [] else to_u8 c ∷ later

-- `castToInt` from `result` on; `*str - '0'` is an `int`, and negative below '0'.
unfoldable pub cast_loop : List ℕ → ℕ → ℕ
cast_loop [] result = result
cast_loop (c ∷ str) result = cast_loop str (to_size (to_size (result * 10) + (c + 2 ^ 64 - 48)))

unfoldable pub cast_to_int : List ℕ → ℕ
cast_to_int str = cast_loop str 0

-- `mku2`, a copy in characters of two bytes.
unfoldable pub mku2 : List ℕ → List ℕ
mku2 [] = []
mku2 (c ∷ str) = c ∷ mku2 str

unfoldable pub count_char : List ℕ → ℕ → ℕ
count_char [] c = 0
count_char (x ∷ str) c = if x == c then suc (count_char str c) else count_char str c

-- `indexOf`, where `none` is -1; `strchr` is asked for characters other than the terminator.
abbrev pub index_after : Option ℕ → Option ℕ
index_after none = none
index_after (some i) = some (suc i)

unfoldable pub index_of : List ℕ → ℕ → Option ℕ
index_of [] c = none
index_of (x ∷ str) c = if x == c then some 0 else index_after (index_of str c)

-- `substr`: the copy may not read past the terminator.
unfoldable pub substr : List ℕ → ℕ → ℕ → Outcome (List ℕ)
substr str from count =
    if ltb (length str + 1) (from + count) then undefined else done (take count (drop from str))

-- The end of a piece at `from`.
abbrev pub piece_end : List ℕ → ℕ → Option ℕ → ℕ
piece_end str from none = length str - from
piece_end str from (some to) = to

-- The loop of `split`, with `arrayLen - start` rounds left; a pointer past the terminator is undefined.
unfoldable pub split_loop : ℕ → List ℕ → ℕ → ℕ → Outcome (List (List ℕ))
split_loop zero str dil from = done []
split_loop (suc left) str dil from = if ltb (length str) from then undefined else (do
  let to = piece_end str from (index_of (drop from str) dil)
  buff ← substr str from to
  splited ← split_loop left str dil (from + (to + 1))
  done (buff ∷ splited))

unfoldable pub split : List ℕ → ℕ → Outcome (List (List ℕ))
split str dil = split_loop (count_char str dil + 1) str dil 0

unfoldable pub is_spacer : ℕ → Bool
is_spacer c = (c == 32) || (c == 10) || (c == 13)

-- What the calls on a file give: whether it opens, whether `fseek` succeeds, what `ftell` gives, and
-- the bytes that `fread` stores of so many that are asked for.
pub record Files : Type 0 where
  pub fopen : List ℕ → Bool
  pub fseek : List ℕ → Bool
  pub ftell : List ℕ → ℕ
  pub fread : List ℕ → ℕ → List ℕ

-- The end of `readFileRaw`, with the block, of one byte more than the file: what the block holds, or
-- `none` for NULL.
unfoldable pub read_into : List ℕ → ℕ → List ℕ → Outcome (Option (List ℕ))
read_into got size buff =
    if ltb (length buff) (length got)
    then undefined
    else if not (length got == size)
    then done none
    else if ltb size (length buff)
    then done (some (got ++ (0 ∷ drop (size + 1) buff)))
    else undefined

abbrev pub read_buffer : List ℕ → ℕ → Option (List ℕ) → Outcome (Option (List ℕ))
read_buffer got size none = done none
read_buffer got size (some buff) = read_into got size buff

unfoldable pub read_file_raw : Allocator → Files → List ℕ → Outcome (Option (List ℕ))
read_file_raw mem files filename =
    if not (files.fopen filename)
    then done none
    else if not (files.fseek filename)
    then done none
    else (let size = files.ftell filename in
        read_buffer (files.fread filename size) size (mem.malloc (to_size (size + 1))))

-- The string at the beginning of a block: a block without a terminator is read past its end.
unfoldable pub string_at : List ℕ → Outcome (List ℕ)
string_at [] = undefined
string_at (c ∷ rest) =
    let later = string_at rest in if c == 0 then done [] else (do str ← later; done (c ∷ str))

abbrev pub newline : ℕ
newline = 10

-- `split(readFileRaw(filename), NEWLINE)`, where `split` reads the length of a null pointer.
abbrev pub split_raw : Option (List ℕ) → Outcome (List (List ℕ))
split_raw none = undefined
split_raw (some buff) = do str ← string_at buff; split str newline

unfoldable pub read_file_lines : Allocator → Files → List ℕ → Outcome (List (List ℕ))
read_file_lines mem files filename = do raw ← read_file_raw mem files filename; split_raw raw
