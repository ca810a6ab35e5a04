-- ===== src/Yaml/Content/Texts.antt =====
-- test_yaml_parser.go: what replacing the variables of a run makes of the texts of a scenario.
use ringpop_common.Common.{
  ℕ, zero, suc, ◌-◌, ◌≡◌, refl, inl, inr, not, ◌||◌, some, List, [], ◌∷◌, arith, ◌==◌, Bool-cases,
  Bytes, length, get_elem?, All,
}
use ringpop_common.Outcome.{in_command, ok}
use ringpop_common.Text.{fields}
use ringpop_common.Command.{Command}
use ringpop_common.Yaml
use ringpop_common.Yaml.Atoi.{atoi}
use ringpop_common.Yaml.Ensures.{
  Ensures, Ensures-bind, Ensures-wrap_panic, Ensures-self, Ensures-map,
}

-- Two lists of one length whose items are related one by one.
abbrev pub Each {ℓ κ} : {A : Type ℓ} {B : Type κ} → (A → B → Type 0) → List A → List B → Type 0
Each R [] [] = Unit
Each R (a ∷ xs) (b ∷ ys) = R a b × Each R xs ys
Each R _ _ = ⊥

pub at-some :
    {A : Type 0} (xs : List A) (i : ℕ) → Ensures (λ x. get_elem? xs i ≡ some x) (Yaml.at xs i)
at-some [] i = tt
at-some (x ∷ xs) zero = refl
at-some (x ∷ xs) (suc i) = at-some xs i

-- The values of a run for the variables.
module _ (vs rs : List Bytes) where
  -- the entry of the script and what becomes of its label and its text
  abbrev pub IsEntryOf : List (Bytes × Bytes) → Bytes → Bytes → Type 0
  IsEntryOf d l text =
      (label : Bytes) × (cmd : Bytes) × (d ≡ (label, cmd) ∷ [])
      × (Yaml.replace label vs rs ≡ ok l)
      × (Yaml.replace cmd vs rs ≡ ok text)

  abbrev pub Entries : List (List (Bytes × Bytes)) → List Bytes → List Bytes → Type 0
  Entries [] [] [] = Unit
  Entries (d ∷ ds) (l ∷ ls) (c ∷ cs) = IsEntryOf d l c × Entries ds ls cs
  Entries _ _ _ = ⊥

  -- The entry has one label and one text; the command bears the label, and its name and arguments are
  -- the words of the text, both after the replacement.
  abbrev pub IsCommandOf : List (Bytes × Bytes) → Command → Type 0
  IsCommandOf d c = (text : Bytes) × IsEntryOf d c.label text × (fields text ≡ c.cmd ∷ c.args)

  script_entry-IsEntryOf :
      (d : List (Bytes × Bytes)) → Ensures (λ lc. IsEntryOf d lc.0 lc.1) (Yaml.script_entry d vs rs)
  unfolding Yaml.script_entry
  script_entry-IsEntryOf [] = tt
  script_entry-IsEntryOf (d ∷ e ∷ ds) = tt
  script_entry-IsEntryOf ((label, cmd) ∷ []) =
      Ensures-bind _ _ (Yaml.replace label vs rs) _ (Ensures-self (Yaml.replace label vs rs))
        λ l hl.
          Ensures-bind _ _ (Yaml.replace cmd vs rs) _ (Ensures-self (Yaml.replace cmd vs rs))
            λ c hc. (label, cmd, refl, hl, hc)

  pub extract_script-Entries :
      (script : List (List (Bytes × Bytes)))
      → Ensures (λ lc. Entries script lc.0 lc.1) (Yaml.extract_script script vs rs)
  unfolding Yaml.extract_script
  extract_script-Entries [] = tt
  extract_script-Entries (d ∷ script) =
      Ensures-bind _ _ (Yaml.script_entry d vs rs) _ (script_entry-IsEntryOf d) λ lc h.
        Ensures-bind _ _ (Yaml.extract_script script vs rs) _ (extract_script-Entries script)
          λ r k. (h, k)

  command_of-fields :
      (label : Bytes) (ws : List Bytes)
      → Ensures
          (λ (c : Command). (c.label ≡ label) × (ws ≡ c.cmd ∷ c.args))
          (Yaml.command_of label ws)
  unfolding Yaml.command_of
  command_of-fields label [] = tt
  command_of-fields label (w ∷ ws) = (refl, refl)

  pub script_commands-Each :
      (script : List (List (Bytes × Bytes))) (ls cs : List Bytes)
      → Entries script ls cs
      → Ensures (Each IsCommandOf script) (Yaml.script_commands ls cs)
  unfolding Yaml.script_commands Yaml.parse_command
  script_commands-Each [] [] [] h = tt
  script_commands-Each [] [] (c ∷ cs) h = elim h [ ]
  script_commands-Each [] (l ∷ ls) cs h = elim h [ ]
  script_commands-Each (d ∷ script) [] cs h = elim h [ ]
  script_commands-Each (d ∷ script) (l ∷ ls) [] h = elim h [ ]
  script_commands-Each (d ∷ script) (l ∷ ls) (c ∷ cs) (h, hs) =
      Ensures-bind _ _ (Yaml.parse_command l c) _
        (Ensures-wrap_panic _ (in_command l c) _ (command_of-fields l (fields c)))
        λ cmd (same, words).
          Ensures-bind _ _ (Yaml.script_commands ls cs) _ (script_commands-Each script ls cs hs)
            λ cmds k. ((c, (rw (same) h), words), k)

  pub replace_each-Each :
      (ss : List Bytes)
      → Ensures (Each (λ s t. Yaml.replace s vs rs ≡ ok t) ss) (Yaml.replace_each ss vs rs)
  unfolding Yaml.replace_each
  replace_each-Each [] = tt
  replace_each-Each (s ∷ ss) =
      Ensures-bind _ _ (Yaml.replace s vs rs) _ (Ensures-self (Yaml.replace s vs rs))
        λ t h. Ensures-bind _ _ (Yaml.replace_each ss vs rs) _ (replace_each-Each ss) λ ts k. (h, k)

pub size_of-atoi : (s : Bytes) → Ensures (λ n. atoi s ≡ some n) (Yaml.size_of s)
unfolding Yaml.size_of Yaml.size_result
size_of-atoi s = ground arith

-- the form <var> of a variable's name
abbrev pub IsVariable : Bytes → Type 0
IsVariable v = (get_elem? v 0 ≡ some b'<') × (get_elem? v (length v - 1) ≡ some b'>')

check_var-IsVariable : (v : Bytes) → Ensures (λ u. IsVariable v) (Yaml.check_var v)
unfolding Yaml.check_var
check_var-IsVariable v = Ensures-bind _ _ (Yaml.at v 0) _ (at-some v 0) λ first hf.
    Ensures-bind _ _ (Yaml.at v (length v - 1)) _ (at-some v (length v - 1)) λ last hl.
      elim (Bool-cases (not (first == b'<') || not (last == b'>'))) [
        | inl bad ↦ rw bad tt
        | inr good ↦ rw good (ground arith, ground arith)
      ]

pub check_vars-All : (vs : List Bytes) → Ensures (λ u. All IsVariable vs) (Yaml.check_vars vs)
unfolding Yaml.check_vars
check_vars-All [] = tt
check_vars-All (v ∷ vs) =
    Ensures-bind (λ u. IsVariable v) _ (Yaml.check_var v) _ (check_var-IsVariable v)
      λ u h. Ensures-map _ _ (Yaml.check_vars vs) (λ w k. (h, k)) (check_vars-All vs)
