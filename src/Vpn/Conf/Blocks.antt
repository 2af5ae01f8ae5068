-- ===== src/Vpn/Conf/Blocks.antt =====
-- What the awk program of `cleanupVPNPeer` does to a wg0.conf of peer blocks that each end in a
-- blank line; internal/controller/ml/nodeprovision_controller.go.
use public_cloud_vm_provisio.Prelude.{
  String, ◌≡◌, refl, sym, ap, ◌∙◌, Bool, true, false, ◌||◌, List, [], ◌∷◌, ◌++◌, map, any, drop_if,
  All, All-append, has_prefix,
}
use mathlib.Core.List.{append-nil}
use public_cloud_vm_provisio.Vpn.Conf.{clean_conf, cleanup_rules, names_key}
use public_cloud_vm_provisio.Vpn.Filter.{filter_end, filter_lines}
use public_cloud_vm_provisio.Vpn.Filter.Blocks.{
  Block, block_lines, Part, plain, peer, all_parts, IsInside, IsBlock, IsBefore, IsPart,
  flags_after, drops_block, drops_part, printed, parts-lines, loses-lines, conf-printed,
}

abbrev pub all_lines : List Block → List String
all_lines [] = []
all_lines (b ∷ bs) = block_lines b ++ all_lines bs

abbrev pub has_key : String → Block → Bool
has_key key b = any (names_key key) (b.body ++ b.blank ∷ [])

or_assoc : (a b c : Bool) → a || b || c ≡ a || (b || c)
or_assoc true b c = refl
or_assoc false b c = refl

or_false : (b : Bool) → b || false ≡ b
or_false true = refl
or_false false = refl

parts-plain :
    (lines : List String) (ps : List Part)
    → all_parts (map plain lines ++ ps) ≡ lines ++ all_parts ps
parts-plain [] ps = refl
parts-plain (line ∷ lines) ps = ap (λ l. line ∷ l) (parts-plain lines ps)

parts-peers : (bs : List Block) → all_parts (map peer bs) ≡ all_lines bs
parts-peers [] = refl
parts-peers (b ∷ bs) = ap (λ l. block_lines b ++ l) (parts-peers bs)

plain-lines : (lines : List String) → all_parts (map plain lines) ≡ lines
plain-lines [] = refl
plain-lines (line ∷ lines) = ap (λ l. line ∷ l) (plain-lines lines)

plain-IsPart : (lines : List String) → All IsBefore lines → All IsPart (map plain lines)
plain-IsPart [] h = tt
plain-IsPart (line ∷ lines) (e, es) = (e, plain-IsPart lines es)

peers-IsPart : (bs : List Block) → All IsBlock bs → All IsPart (map peer bs)
peers-IsPart [] h = tt
peers-IsPart (b ∷ bs) (e, es) = (e, peers-IsPart bs es)

keep-peer :
    (b : Block) {c : Bool} (d : Bool)
    → c ≡ d
    → {ps : List Part} (bs : List Block) → ps ≡ map peer bs
    → elim c [ true ↦ ps | false ↦ peer b ∷ ps ] ≡ map peer (elim d [ true ↦ bs | false ↦ b ∷ bs ])
keep-peer b true e bs h = rw e h
keep-peer b false e bs h = rw e (ap (λ ps. peer b ∷ ps) h)

module _ (key : String) where
  after-any :
      (f : Bool) (lines : List String)
      → flags_after (cleanup_rules key) f lines ≡ f || any (names_key key) lines
  unfolding cleanup_rules
  after-any f [] = sym (or_false f)
  after-any f (line ∷ lines) =
      after-any (f || names_key key line) lines
      ∙ or_assoc f (names_key key line) (any (names_key key) lines)

  drops-has_key : (b : Block) → drops_block (cleanup_rules key) b ≡ has_key key b
  unfolding cleanup_rules
  drops-has_key b = after-any false (b.body ++ b.blank ∷ [])

  drop-peers :
      (bs : List Block)
      → drop_if (drops_part (cleanup_rules key)) (map peer bs) ≡ map peer (drop_if (has_key key) bs)
  unfolding drop_if
  drop-peers [] = refl
  drop-peers (b ∷ bs) =
      keep-peer b (has_key key b) (drops-has_key b) (drop_if (has_key key) bs) (drop-peers bs)

  drop-plain :
      (lines : List String) (ps : List Part)
      → drop_if (drops_part (cleanup_rules key)) (map plain lines ++ ps)
        ≡ map plain lines ++ drop_if (drops_part (cleanup_rules key)) ps
  unfolding drop_if
  drop-plain [] ps = refl
  drop-plain (line ∷ lines) ps = ap (λ l. plain line ∷ l) (drop-plain lines ps)

  clean-parts :
      (ps : List Part) (rest : List String)
      → All IsPart ps
      → clean_conf key (all_parts ps ++ rest)
        ≡ printed (cleanup_rules key) (all_parts (drop_if (drops_part (cleanup_rules key)) ps)) rest
  unfolding clean_conf
  clean-parts ps rest h =
      conf-printed (cleanup_rules key) (all_parts ps ++ rest)
      ∙ parts-lines (cleanup_rules key) [] ps rest h

  -- In a wg0.conf of lines before the first peer, and of peer blocks that each end in a blank line,
  -- the program removes the blocks in which a line names the key, and keeps all else in its order.
  pub clean_conf-blocks :
      (lines : List String) (bs : List Block)
      → All IsBefore lines
      → All IsBlock bs
      → clean_conf key (lines ++ all_lines bs) ≡ lines ++ all_lines (drop_if (has_key key) bs)
  unfolding filter_end filter_lines drop_if
  clean_conf-blocks lines bs before blocks =
      let ps = map plain lines ++ map peer bs in
      let whole =
        All-append IsPart (map plain lines) (map peer bs) (plain-IsPart lines before)
          (peers-IsPart bs blocks) in
      let left = drop_if (has_key key) bs in
      ap (λ l. clean_conf key (lines ++ l)) (sym (parts-peers bs))
      ∙ ap (clean_conf key)
          (sym (parts-plain lines (map peer bs)) ∙ sym (append-nil (all_parts ps)))
      ∙ clean-parts ps [] whole
      ∙ ap all_parts
          (drop-plain lines (map peer bs) ∙ ap (λ l. map plain lines ++ l) (drop-peers bs))
      ∙ parts-plain lines (map peer left)
      ∙ ap (λ l. lines ++ l) (parts-peers left)

  -- A block that the next block follows without a blank line is lost, whatever its key: the
  -- program's result is the one for the file without that block.
  pub clean_conf-loses :
      (lines : List String) (head : String) (body : List String) (next : String)
      (rest : List String)
      → All IsBefore lines
      → has_prefix head "[Peer]" ≡ true
      → All IsInside body
      → has_prefix next "[Peer]" ≡ true
      → clean_conf key (lines ++ (head ∷ body ++ next ∷ rest))
        ≡ clean_conf key (lines ++ next ∷ rest)
  clean_conf-loses lines head body next rest before first inner second =
      behind (head ∷ body ++ next ∷ rest)
      ∙ loses-lines (cleanup_rules key) _ head body next rest first inner second
      ∙ sym (behind (next ∷ rest))
    where
      behind :
          (more : List String)
          → clean_conf key (lines ++ more)
            ≡ printed
                (cleanup_rules key)
                (all_parts (drop_if (drops_part (cleanup_rules key)) (map plain lines)))
                more
      behind more =
          ap (λ l. clean_conf key (l ++ more)) (sym (plain-lines lines))
          ∙ clean-parts (map plain lines) more (plain-IsPart lines before)
