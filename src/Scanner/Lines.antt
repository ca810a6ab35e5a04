-- ===== src/Scanner/Lines.antt =====
-- A scanner over lines that are at hand, as the program gets one from bufio over a stats file: it
-- hands out the lines and then reports the error that ended them, if any.
use ringpop_common.Common.{refl, Bool, true, false, Option, none, List, [], ◌∷◌, Bytes}
use ringpop_common.Outcome.{Failure}
use ringpop_common.Scanner.{Scanner, Yields}

pub record LineScanner : Type 0 where
  pub pending : List Bytes
  pub current : Bytes
  pub ends_with : Option Failure
  pub failure : Option Failure

scan_line : LineScanner → List Bytes → Bool × LineScanner
scan_line s [] = (false, record s { current = []; failure = s.ends_with })
scan_line s (l ∷ ls) = (true, record s { pending = ls; current = l })

unfoldable pub line_scanner : Scanner LineScanner
unfolding scan_line
line_scanner = record {
  scan = λ s. scan_line s s.pending;
  text = λ s. s.current;
  err_of = λ s. s.failure;
}

abbrev pub open_lines : List Bytes → Option Failure → LineScanner
open_lines ls e = record { pending = ls; current = []; ends_with = e; failure = none }

Yields-from :
    (ls : List Bytes) (current : Bytes) (e : Option Failure)
    → Yields line_scanner
        (record { pending = ls; current = current; ends_with = e; failure = none })
        ls
        e
unfolding line_scanner
Yields-from [] current e = (_, refl, refl)
Yields-from (l ∷ ls) current e = (_, refl, refl, refl, Yields-from ls l e)

pub open_lines-Yields :
    (ls : List Bytes) (e : Option Failure) → Yields line_scanner (open_lines ls e) ls e
open_lines-Yields ls e = Yields-from ls [] e
