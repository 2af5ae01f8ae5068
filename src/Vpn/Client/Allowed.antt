-- ===== src/Vpn/Client/Allowed.antt =====
-- The AllowedIPs that `buildClientWGConfig` of provider/onprem/provisioner.go collects.
use public_cloud_vm_provisio.Prelude.{
  ℕ, String, ◌≡◌, refl, sym, ap, ◌∙◌, ◌⊎◌, inl, inr, Bool, true, false, ◌||◌, some, List, [], ◌∷◌,
  ◌++◌, arith, eq_iff, Bool-cases, Option-cases, is_empty, trim_space, subst,
}
use public_cloud_vm_provisio.Net.{IpNet, parse_cidr}
use public_cloud_vm_provisio.Vpn.Allocate.{member}
use public_cloud_vm_provisio.Vpn.Allocate.Free.{member-append}
use public_cloud_vm_provisio.Vpn.NetConfig.Distinct.{NoRepeat, NoRepeat-append}
use public_cloud_vm_provisio.Vpn.Client.{
  add_allowed, ServerAnswers, conf, client_lines, endpoint_port, build_client_wg_config,
}

-- What a run of the loop makes of the ranges collected so far.
pub record IsCollected (allowed extras result : List String) : Type 0 where
  pub kept : (x : String) → member allowed x ≡ true → member result x ≡ true
  pub covered :
      (x : String)
      → member extras x ≡ true
      → is_empty (trim_space x) ≡ false
      → member result (trim_space x) ≡ true
  pub valid :
      (x : String)
      → member result x ≡ true
      → (member allowed x ≡ true) ⊎ ((net : IpNet) × (parse_cidr x ≡ some net))
  pub distinct : NoRepeat allowed → NoRepeat result

member-last : (xs : List String) (x : String) → member (xs ++ x ∷ []) x ≡ true
unfolding member
member-last xs x = ground (arith, member-append xs (x ∷ []) x, eq_iff x x)

member-snoc :
    (xs : List String) (y x : String)
    → member (xs ++ y ∷ []) x ≡ true
    → (member xs x ≡ true) ⊎ (y ≡ x)
unfolding member
member-snoc xs y x h = ground (arith, member-append xs (y ∷ []) x, eq_iff y x)

member-head :
    (y : String) (ys : List String) (x : String)
    → member (y ∷ ys) x ≡ true
    → (y ≡ x) ⊎ (member ys x ≡ true)
unfolding member
member-head y ys x h = ground (arith, eq_iff y x)

or-right : {a b : Bool} → a ≡ false → (a || b) ≡ true → b ≡ true
or-right {a} {b} e h = ground arith

-- An entry that is skipped: blank, or collected before
skip-IsCollected :
    {allowed : List String} (extra : String) (extras : List String) {result : List String}
    → (is_empty (trim_space extra) || member allowed (trim_space extra)) ≡ true
    → IsCollected allowed extras result
    → IsCollected allowed (extra ∷ extras) result
skip-IsCollected {allowed} extra extras {result} skipped c = record {
  kept = c.kept;
  covered = λ x h full. elim (member-head extra extras x h) [
    | inl same ↦ c.kept (trim_space x) (known x same full)
    | inr later ↦ c.covered x later full
  ];
  valid = c.valid;
  distinct = c.distinct;
}
  where
    known :
        (x : String)
        → extra ≡ x
        → is_empty (trim_space x) ≡ false
        → member allowed (trim_space x) ≡ true
    known x same full =
        subst (λ y. member allowed (trim_space y) ≡ true) same
          (or-right (subst (λ y. is_empty (trim_space y) ≡ false) (sym same) full) skipped)

-- An entry that is added
add-IsCollected :
    {allowed : List String} (extra : String) (extras : List String) {result : List String}
    → {net : IpNet} → member allowed (trim_space extra) ≡ false
    → parse_cidr (trim_space extra) ≡ some net
    → IsCollected (allowed ++ trim_space extra ∷ []) extras result
    → IsCollected allowed (extra ∷ extras) result
add-IsCollected {allowed} extra extras {result} {net} new parsed c = record {
  kept = λ x h. c.kept x (earlier x h);
  covered = λ x h full. elim (member-head extra extras x h) [
    | inl same ↦ c.kept (trim_space x) (
        subst (λ y. member (allowed ++ trim_space extra ∷ []) (trim_space y) ≡ true) same
          (member-last allowed (trim_space extra)))
    | inr later ↦ c.covered x later full
  ];
  valid = λ x h. elim (c.valid x h) [
    | inl old ↦ elim (member-snoc allowed (trim_space extra) x old) [
      | inl there ↦ inl there
      | inr same ↦ inr (net, ap parse_cidr (sym same) ∙ parsed)
    ]
    | inr fine ↦ inr fine
  ];
  distinct = λ h. c.distinct (NoRepeat-append allowed (trim_space extra) new h);
}
  where
    earlier :
        (x : String) → member allowed x ≡ true → member (allowed ++ trim_space extra ∷ []) x ≡ true
    earlier x h = ground (arith, member-append allowed (trim_space extra ∷ []) x)

none-IsCollected : (allowed : List String) → IsCollected allowed [] allowed
unfolding member
none-IsCollected allowed = record {
  kept = λ x h. h;
  covered = λ x h full. ground arith;
  valid = λ x h. inl h;
  distinct = λ h. h;
}

-- The loop that succeeds keeps the ranges it had, has every extra range that is not blank, adds
-- nothing but ranges that parse, and repeats none if none was repeated.
pub add_allowed-IsCollected :
    (allowed extras : List String) {result : List String}
    → add_allowed allowed extras ≡ some result
    → IsCollected allowed extras result
unfolding add_allowed
add_allowed-IsCollected allowed [] e =
    subst (IsCollected allowed []) (ground arith) (none-IsCollected allowed)
add_allowed-IsCollected allowed (extra ∷ extras) e =
    elim (Bool-cases (is_empty (trim_space extra) || member allowed (trim_space extra))) [
      | inl skip ↦
          skip-IsCollected extra extras skip
            (add_allowed-IsCollected allowed extras (rw (add_allowed, skip) at e))
      | inr new ↦ elim (Option-cases (parse_cidr (trim_space extra))) [
        | inl bad ↦ cc (rw (add_allowed, new, bad) at e)
        | inr (net, parsed) ↦ add-IsCollected extra extras (ground arith) parsed (
            add_allowed-IsCollected (allowed ++ trim_space extra ∷ []) extras
              (rw (add_allowed, new, parsed) at e))
      ]
    ]

conf-injective : {xs ys : List String} → conf xs ≡ conf ys → xs ≡ ys
conf-injective e = cc

-- A configuration that is made sends the VPN range and every extra range that is not blank into
-- the tunnel, no range twice, and none but the VPN range and ranges that parse; its peer is the
-- server, by the key that the server names.
pub build-IsCollected :
    (answers : ServerAnswers) (vpn_ip vpn_range server_ip : String) (port : ℕ)
    (private_key : String) (extras : List String) {lines : List String}
    → build_client_wg_config answers vpn_ip vpn_range server_ip port private_key extras ≡ conf lines
    → (key : String) × (allowed : List String) × (answers.public_key ≡ some key)
      × (lines
          ≡ client_lines private_key vpn_ip
              (trim_space key)
              server_ip
              (endpoint_port answers.listen_port port)
              allowed)
      × IsCollected (vpn_range ∷ []) extras allowed
      × NoRepeat allowed
unfolding build_client_wg_config member
build-IsCollected answers vpn_ip vpn_range server_ip port private_key extras e =
    elim (Option-cases answers.public_key) [
      | inl bad ↦ cc (rw (build_client_wg_config, bad) at e)
      | inr (key, named) ↦ elim (Bool-cases (is_empty (trim_space key))) [
        | inl blank ↦ cc (rw (build_client_wg_config, named, blank) at e)
        | inr full ↦ elim (Option-cases (add_allowed (vpn_range ∷ []) extras)) [
          | inl bad ↦ cc (rw (build_client_wg_config, named, full, bad) at e)
          | inr (allowed, collected) ↦
              let c = add_allowed-IsCollected (vpn_range ∷ []) extras collected in
              (
                key,
                allowed,
                named,
                conf-injective (sym (rw (build_client_wg_config, named, full, collected) at e)),
                c,
                c.distinct (refl, tt),
              )
        ]
      ]
    ]
