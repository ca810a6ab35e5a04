-- ===== src/Yaml/Total/Parts.antt =====
-- test_yaml_parser.go: the functions that parse no value return or panic, and do nothing else.
use ringpop_common.Common.{ℕ, zero, suc, ◌-◌, List, [], ◌∷◌, arith, Bytes, length}
use ringpop_common.Outcome.{ReturnsOrPanics, bind-ReturnsOrPanics, wrap_panic-ReturnsOrPanics}
use ringpop_common.Text.{replace_all, fields}
use ringpop_common.Yaml

pub at-ReturnsOrPanics {ℓ} : {A : Type ℓ} (xs : List A) (i : ℕ) → ReturnsOrPanics (Yaml.at xs i)
at-ReturnsOrPanics [] i = tt
at-ReturnsOrPanics (x ∷ xs) zero = tt
at-ReturnsOrPanics (x ∷ xs) (suc i) = at-ReturnsOrPanics xs i

pub replace-ReturnsOrPanics :
    (s : Bytes) (vs rs : List Bytes) → ReturnsOrPanics (Yaml.replace s vs rs)
unfolding Yaml.replace
replace-ReturnsOrPanics s [] rs = tt
replace-ReturnsOrPanics s (v ∷ vs) [] = tt
replace-ReturnsOrPanics s (v ∷ vs) (r ∷ rs) = replace-ReturnsOrPanics (replace_all s v r) vs rs

pub command_of-ReturnsOrPanics :
    (label : Bytes) (fs : List Bytes) → ReturnsOrPanics (Yaml.command_of label fs)
unfolding Yaml.command_of
command_of-ReturnsOrPanics label [] = tt
command_of-ReturnsOrPanics label (cmd ∷ args) = tt

pub parse_command-ReturnsOrPanics : (label s : Bytes) → ReturnsOrPanics (Yaml.parse_command label s)
unfolding Yaml.parse_command
parse_command-ReturnsOrPanics label s =
    wrap_panic-ReturnsOrPanics _ _ (command_of-ReturnsOrPanics label (fields s))

pub script_commands-ReturnsOrPanics :
    (ls cs : List Bytes) → ReturnsOrPanics (Yaml.script_commands ls cs)
unfolding Yaml.script_commands
script_commands-ReturnsOrPanics [] cs = tt
script_commands-ReturnsOrPanics (l ∷ ls) [] = tt
script_commands-ReturnsOrPanics (l ∷ ls) (c ∷ cs) =
    bind-ReturnsOrPanics (Yaml.parse_command l c) _ (parse_command-ReturnsOrPanics l c) (λ cmd.
      bind-ReturnsOrPanics (Yaml.script_commands ls cs) _ (script_commands-ReturnsOrPanics ls cs)
        (λ cmds. tt))

pub script_entry-ReturnsOrPanics :
    (d : List (Bytes × Bytes)) (vs rs : List Bytes) → ReturnsOrPanics (Yaml.script_entry d vs rs)
unfolding Yaml.script_entry
script_entry-ReturnsOrPanics [] vs rs = tt
script_entry-ReturnsOrPanics ((label, cmd) ∷ []) vs rs =
    bind-ReturnsOrPanics (Yaml.replace label vs rs) _ (replace-ReturnsOrPanics label vs rs) (λ l.
      bind-ReturnsOrPanics (Yaml.replace cmd vs rs) _ (replace-ReturnsOrPanics cmd vs rs) (λ c. tt))
script_entry-ReturnsOrPanics (e ∷ f ∷ d) vs rs = tt

pub extract_script-ReturnsOrPanics :
    (s : List (List (Bytes × Bytes))) (vs rs : List Bytes)
    → ReturnsOrPanics (Yaml.extract_script s vs rs)
unfolding Yaml.extract_script
extract_script-ReturnsOrPanics [] vs rs = tt
extract_script-ReturnsOrPanics (d ∷ s) vs rs =
    bind-ReturnsOrPanics (Yaml.script_entry d vs rs) _ (script_entry-ReturnsOrPanics d vs rs) (λ lc.
      bind-ReturnsOrPanics (Yaml.extract_script s vs rs) _ (extract_script-ReturnsOrPanics s vs rs)
        (λ r. tt))

pub replace_each-ReturnsOrPanics :
    (ss vs rs : List Bytes) → ReturnsOrPanics (Yaml.replace_each ss vs rs)
unfolding Yaml.replace_each
replace_each-ReturnsOrPanics [] vs rs = tt
replace_each-ReturnsOrPanics (s ∷ ss) vs rs =
    bind-ReturnsOrPanics (Yaml.replace s vs rs) _ (replace-ReturnsOrPanics s vs rs) (λ t.
      bind-ReturnsOrPanics (Yaml.replace_each ss vs rs) _ (replace_each-ReturnsOrPanics ss vs rs)
        (λ r. tt))

pub size_of-ReturnsOrPanics : (s : Bytes) → ReturnsOrPanics (Yaml.size_of s)
unfolding Yaml.size_of Yaml.size_result
size_of-ReturnsOrPanics s = ground arith

pub check_var-ReturnsOrPanics : (v : Bytes) → ReturnsOrPanics (Yaml.check_var v)
unfolding Yaml.check_var
check_var-ReturnsOrPanics v = bind-ReturnsOrPanics (Yaml.at v 0) _ (at-ReturnsOrPanics v 0) (λ a.
    bind-ReturnsOrPanics (Yaml.at v (length v - 1)) _ (at-ReturnsOrPanics v (length v - 1))
      (λ b. ground arith))

pub check_vars-ReturnsOrPanics : (vs : List Bytes) → ReturnsOrPanics (Yaml.check_vars vs)
unfolding Yaml.check_vars
check_vars-ReturnsOrPanics [] = tt
check_vars-ReturnsOrPanics (v ∷ vs) =
    bind-ReturnsOrPanics (Yaml.check_var v) _ (check_var-ReturnsOrPanics v)
      (λ u. check_vars-ReturnsOrPanics vs)
