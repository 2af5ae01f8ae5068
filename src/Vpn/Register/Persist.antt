-- ===== src/Vpn/Register/Persist.antt =====
-- The script of step 4 of `registerVPNPeer`, provider/onprem/provisioner.go, run again.
use public_cloud_vm_provisio.Prelude.{
  String, ◌≡◌, refl, sym, ap, ◌∙◌, inl, inr, Bool, true, false, ◌&&◌, ◌||◌, Option, none, some,
  List, [], ◌∷◌, ◌++◌, if◌then◌else◌, Bool-cases, any, drop_if, any-append, drop_if_none,
  any-drop_if_self, append, has_prefix, contains_text, subst, contains_text-append,
  contains_text_self,
}
use public_cloud_vm_provisio.Vpn.Conf.{names_key}
use public_cloud_vm_provisio.Vpn.Filter.{Rules}
use public_cloud_vm_provisio.Vpn.Filter.Blocks.{all_parts, flags_after, drops_part}
use public_cloud_vm_provisio.Vpn.Register.{Flags, stale_rules, new_block, has_peer, persist_peer}
use public_cloud_vm_provisio.Vpn.Register.Layout.{
  Layout, layout_lines, IsLayout, strip_layout, close_last, add_layout, register_layout, drops_last,
  register-IsLayout, persist-layout, add-layout,
}

-- A file in which the script finds nothing to do
pub record IsSettled (key ip : String) (l : Layout) : Type 0 where
  pub parts : any (drops_part (stale_rules (append ip "/32") key)) l.parts ≡ false
  pub last : drops_last (stale_rules (append ip "/32") key) l.last ≡ false
  pub known : has_peer key (layout_lines l) ≡ true

settled-register :
    (key ip : String) (l : Layout) → IsSettled key ip l → register_layout key ip l ≡ l
settled-register key ip l h =
    ap (add_layout key ip) same
    ∙ ap
        (λ b.
          if b then l else record { parts = l.parts ++ close_last l.last; last = new_block key ip })
        h.known
  where
    same : strip_layout (stale_rules (append ip "/32") key) l ≡ l
    same =
        ap
          (λ ps. record {
            parts = ps;
            last = if drops_last (stale_rules (append ip "/32") key) l.last then [] else l.last;
          })
          (drop_if_none (drops_part (stale_rules (append ip "/32") key)) l.parts h.parts)
        ∙ ap (λ b. record { parts = l.parts; last = if b then [] else l.last }) h.last

module _ (target key : String) where
  or_false : (b : Bool) → b || false ≡ b
  or_false true = refl
  or_false false = refl

  -- The blank line that closes a block is neither the address's nor the key's.
  closed-drops :
      (f : Flags)
      → (stale_rules target key).drops ((stale_rules target key).see "" f)
        ≡ (stale_rules target key).drops f
  unfolding stale_rules contains_text has_prefix
  closed-drops f = rw (or_false f.has_ip, or_false f.has_key)

  after-append :
      (f : Flags) (xs ys : List String)
      → flags_after (stale_rules target key) f (xs ++ ys)
        ≡ flags_after (stale_rules target key) (flags_after (stale_rules target key) f xs) ys
  after-append f [] ys = refl
  after-append f (x ∷ xs) ys = after-append ((stale_rules target key).see x f) xs ys

  close-drops :
      (last : List String)
      → any (drops_part (stale_rules target key)) (close_last last)
        ≡ drops_last (stale_rules target key) last
  close-drops [] = refl
  close-drops (head ∷ body) =
      or_false _
      ∙ ap (stale_rules target key).drops
          (after-append (stale_rules target key).unset body ("" ∷ []))
      ∙ closed-drops (flags_after (stale_rules target key) (stale_rules target key).unset body)

  after-key :
      (f : Flags) (lines : List String)
      → f.has_key ≡ true
      → (flags_after (stale_rules target key) f lines).has_key ≡ true
  unfolding stale_rules
  after-key f [] h = h
  after-key f (line ∷ lines) h =
      after-key ((stale_rules target key).see line f) lines (ap (λ b. b || names_key key line) h)

  key-drops : (f : Flags) → f.has_key ≡ true → (stale_rules target key).drops f ≡ false
  unfolding stale_rules
  key-drops f h = rw h (and_false f.has_ip)
    where
      and_false : (b : Bool) → b && false ≡ false
      and_false true = refl
      and_false false = refl

  key-line : names_key key (append "PublicKey = " key) ≡ true
  unfolding append contains_text has_prefix
  key-line = contains_text-append "PublicKey = " key

  line-drops :
      (line : String) (lines : List String)
      → names_key key line ≡ true
      → (stale_rules target key).drops
          (flags_after (stale_rules target key) (stale_rules target key).unset (line ∷ lines))
        ≡ false
  unfolding stale_rules
  line-drops line lines e =
      let f = (stale_rules target key).see line (stale_rules target key).unset in
      key-drops (flags_after (stale_rules target key) f lines) (after-key f lines e)

  new-drops : (ip : String) → drops_last (stale_rules target key) (new_block key ip) ≡ false
  unfolding new_block
  new-drops ip =
      line-drops (append "PublicKey = " key)
        (append "AllowedIPs = " (append ip "/32") ∷ "PersistentKeepalive = 25" ∷ []) key-line

known-new :
    (key ip : String) (lines : List String) → has_peer key (lines ++ new_block key ip) ≡ true
unfolding has_peer new_block
known-new key ip lines =
    any-append (λ line. contains_text line (append "PublicKey = " key)) lines (new_block key ip)
    ∙ or-true _
        (or-true false (ap (λ b. b || rest) (contains_text_self (append "PublicKey = " key))))
  where
    or-true : (b : Bool) {c : Bool} → c ≡ true → b || c ≡ true
    or-true true e = refl
    or-true false e = e

    rest : Bool
    rest =
        any (λ line. contains_text line (append "PublicKey = " key))
          (append "AllowedIPs = " (append ip "/32") ∷ "PersistentKeepalive = 25" ∷ [])

add-IsSettled :
    (key ip : String) (l : Layout)
    → any (drops_part (stale_rules (append ip "/32") key)) l.parts ≡ false
    → drops_last (stale_rules (append ip "/32") key) l.last ≡ false
    → IsSettled key ip (add_layout key ip l)
add-IsSettled key ip l shut ended = elim (Bool-cases (has_peer key (layout_lines l))) [
  | inl e ↦
      subst (IsSettled key ip) (sym (ap (choose l new) e))
        (record { parts = shut; last = ended; known = e })
  | inr e ↦ subst (IsSettled key ip) (sym (ap (choose l new) e)) (record {
    parts =
        any-append (drops_part rules) l.parts (close_last l.last)
        ∙ rw (shut, close-drops (append ip "/32") key l.last, ended);
    last = new-drops (append ip "/32") key ip;
    known = known-new key ip (all_parts (l.parts ++ close_last l.last));
  })
]
  where
    rules : Rules Flags
    rules = stale_rules (append ip "/32") key

    new : Layout
    new = record { parts = l.parts ++ close_last l.last; last = new_block key ip }

    choose : Layout → Layout → Bool → Layout
    choose x y b = if b then x else y

register-IsSettled : (key ip : String) (l : Layout) → IsSettled key ip (register_layout key ip l)
register-IsSettled key ip l =
    add-IsSettled key ip (strip_layout (stale_rules (append ip "/32") key) l)
      (any-drop_if_self (drops_part (stale_rules (append ip "/32") key)) l.parts)
      (kept (stale_rules (append ip "/32") key) l.last)
  where
    kept :
        (rules : Rules Flags) (last : List String)
        → drops_last rules (if drops_last rules last then [] else last) ≡ false
    kept rules last = elim (Bool-cases (drops_last rules last)) [
      | inl e ↦ ap (λ b. drops_last rules (if b then [] else last)) e
      | inr e ↦ ap (λ b. drops_last rules (if b then [] else last)) e ∙ e
    ]

-- The file that the script makes where none is
abbrev pub start_layout : Option Layout → Layout
start_layout none = record { parts = []; last = [] }
start_layout (some l) = l

abbrev pub conf_of : Option Layout → Option (List String)
conf_of none = none
conf_of (some l) = some (layout_lines l)

unfoldable pub IsStart : Option Layout → Type 0
IsStart none = Unit
IsStart (some l) = IsLayout l

start-IsLayout : (o : Option Layout) → IsStart o → IsLayout (start_layout o)
unfolding IsStart
start-IsLayout none h = record { closed = tt; last = tt }
start-IsLayout (some l) h = h

persist-start :
    (key ip : String) (o : Option Layout)
    → IsStart o
    → persist_peer key ip (conf_of o) ≡ layout_lines (register_layout key ip (start_layout o))
unfolding persist_peer IsStart drop_if
persist-start key ip none h = add-layout key ip (record { parts = []; last = [] })
persist-start key ip (some l) h = persist-layout key ip l h

-- To register the same peer again leaves wg0.conf as it is, where the file was missing or one of
-- lines and blocks, the last block open perhaps.
pub persist-idempotent :
    (key ip : String) (o : Option Layout)
    → IsStart o
    → persist_peer key ip (some (persist_peer key ip (conf_of o))) ≡ persist_peer key ip (conf_of o)
persist-idempotent key ip o h =
    let l = register_layout key ip (start_layout o) in
    let once = persist-start key ip o h in
    ap (λ lines. persist_peer key ip (some lines)) once
    ∙ persist-layout key ip l (register-IsLayout key ip (start_layout o) (start-IsLayout o h))
    ∙ ap layout_lines (settled-register key ip l (register-IsSettled key ip (start_layout o)))
    ∙ sym once
