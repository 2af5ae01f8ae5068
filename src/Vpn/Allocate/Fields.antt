-- ===== src/Vpn/Allocate/Fields.antt =====
-- `strings.Fields` on a text whose first word is known.
use public_cloud_vm_provisio.Prelude.{
  Char, String, ◌≡◌, refl, sym, ap, ◌∙◌, Bool, true, false, not, ◌&&◌, ◌∷◌, arith, is_empty, append,
  is_space, all_chars, append_associative,
}
use public_cloud_vm_provisio.Vpn.Allocate.{fields, fields_from}

-- A character of a word
abbrev pub is_word_char : Char → Bool
is_word_char c = not (is_space c)

append_last :
    (s : String) (c : Char) (t : String)
    → append (append s (String.◌∷◌ c String.[])) t ≡ append s (String.◌∷◌ c t)
unfolding append
append_last s c t = append_associative s (String.◌∷◌ c String.[]) t

append_empty : (s : String) → append s "" ≡ s
unfolding append
append_empty String.[] = refl
append_empty (String.◌∷◌ c s) = ground (arith, append_empty s)

word_char : (c : Char) (b : Bool) → (not (is_space c) && b) ≡ true → is_space c ≡ false
word_char c b h = ground arith

word_rest : (c : Char) (b : Bool) → (not (is_space c) && b) ≡ true → b ≡ true
word_rest c b h = ground arith

fields_from-word :
    (cur w s : String)
    → all_chars is_word_char w ≡ true
    → is_empty (append cur w) ≡ false
    → fields_from cur (append w (append " " s)) ≡ append cur w ∷ fields s
unfolding all_chars fields_from append fields is_empty is_space
fields_from-word cur String.[] s h full =
    let e = sym (ap is_empty (append_empty cur)) ∙ full in
    rw e (ap (λ x. x ∷ fields s) (sym (append_empty cur)))
fields_from-word cur (String.◌∷◌ c w) s h full = rw (word_char c _ h) (
    fields_from-word (append cur (String.◌∷◌ c String.[])) w s (word_rest c _ h)
      (ap is_empty (append_last cur c w) ∙ full)
    ∙ ap (λ x. x ∷ fields s) (append_last cur c w))

-- A word and the blank behind it: the word is the first field.
pub fields-word :
    (w s : String)
    → all_chars is_word_char w ≡ true
    → is_empty w ≡ false
    → fields (append w (append " " s)) ≡ w ∷ fields s
unfolding fields append
fields-word w s h full = fields_from-word "" w s h full
