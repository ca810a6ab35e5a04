-- ===== src/Ingester/Session/File.antt =====
-- The stats file that stat_ingester.go writes, and its lines as a `bufio.Scanner` reads them.
use ringpop_common.Common.{
  ◌<◌, ◌≡◌, refl, ap, ◌∙◌, true, List, [], ◌∷◌, ◌++◌, map, append-nil, append_assoc, arith, ◌==◌,
  if◌then◌else◌, Bytes, length, All, Lacks,
}
use ringpop_common.Text.{push_front}
use ringpop_common.Ingester.{Writer}
use ringpop_common.Ingester.Stability.{write_lines}

-- A file is the bytes written to it, and takes all of them.
abbrev pub file : Writer Bytes
file = record { write = λ w b. (w ++ b, true) }

-- `bufio.ScanLines`: a line ends at a newline or at the end of the file, and a carriage return at its
-- end is dropped.
unfoldable pub drop_cr : Bytes → Bytes
drop_cr [] = []
drop_cr (c ∷ []) = if c == b'\r' then [] else c ∷ []
drop_cr (c ∷ d ∷ s) = c ∷ drop_cr (d ∷ s)

unfoldable pub split_lines : Bytes → List Bytes
split_lines [] = []
split_lines (c ∷ s) =
    let rest = split_lines s in if c == b'\n' then [] ∷ rest else push_front c rest

unfoldable pub file_lines : Bytes → List Bytes
unfolding drop_cr split_lines
file_lines s = map drop_cr (split_lines s)

-- A line without the two bytes that end one, and short enough for the buffer of a `bufio.Scanner`, of
-- 64 KB with the newline.
abbrev pub IsLine : Bytes → Type 0
IsLine l = Lacks b'\n' l × Lacks b'\r' l × (length l < 65536)

drop_cr-Lacks : (l : Bytes) → Lacks b'\r' l → drop_cr l ≡ l
unfolding drop_cr
drop_cr-Lacks [] h = refl
drop_cr-Lacks (c ∷ []) (hc, h) = ground arith
drop_cr-Lacks (c ∷ d ∷ s) (hc, h) = ap (◌∷◌ c) (drop_cr-Lacks (d ∷ s) h)

split_lines-append :
    (l s : Bytes) → Lacks b'\n' l → split_lines (l ++ (b'\n' ∷ s)) ≡ l ∷ split_lines s
unfolding split_lines
split_lines-append [] s h = refl
split_lines-append (c ∷ l) s (hc, h) = rw (split_lines-append l s h) (ground arith)

-- the text of the lines, each with its end
abbrev pub file_text : List Bytes → Bytes
file_text [] = []
file_text (l ∷ ls) = l ++ (b'\n' ∷ file_text ls)

write_lines-file_text : (w : Bytes) (ls : List Bytes) → write_lines file w ls ≡ w ++ file_text ls
unfolding write_lines
write_lines-file_text w [] = rw append-nil
write_lines-file_text w (l ∷ ls) =
    write_lines-file_text (w ++ (l ++ b'\n' ∷ [])) ls
    ∙ append_assoc w (l ++ b'\n' ∷ []) (file_text ls)
    ∙ ap (λ s. w ++ s) (append_assoc l (b'\n' ∷ []) (file_text ls))

file_lines-file_text : (ls : List Bytes) → All IsLine ls → file_lines (file_text ls) ≡ ls
unfolding file_lines
file_lines-file_text [] h = refl
file_lines-file_text (l ∷ ls) (hl, h) =
    rw (split_lines-append l (file_text ls) hl.0)
      (rw (drop_cr-Lacks l hl.1) (ap (◌∷◌ l) (file_lines-file_text ls h)))

-- Reading undoes writing: for lines without newlines and carriage returns, each shorter than 64 KB,
-- the lines of the file that they are written to are those lines.
pub file_lines-write_lines :
    (ls : List Bytes) → All IsLine ls → file_lines (write_lines file [] ls) ≡ ls
file_lines-write_lines ls h =
    ap file_lines (write_lines-file_text [] ls) ∙ file_lines-file_text ls h
