-- ===== src/Wifi/Control/Known.antt =====
-- The known networks as a table from names to passwords.
use esp_components.Base.{
  ℕ, zero, suc, ◌-◌, ◌≤◌, ◌<◌, List, [], ◌∷◌, ◌++◌, Option, none, some, leb, if◌then◌else◌, Bytes,
  same_bytes, same_bytes_iff, length, length-append, take, ◌≡◌, refl, ap, sym, ◌∙◌, arith,
  Bool-cases, Option-cases, inl, inr,
}
use esp_components.Wifi.State.{Network, Sizes}
use esp_components.Wifi.Reconnect.{truncated}
use esp_components.Wifi.Control.{
  Status, ok, no_mem, not_found, invalid_state, update_password, add_known_network,
}

-- The password of the first network of that name.
unfoldable pub password_of : Bytes → List Network → Option Bytes
password_of ssid [] = none
password_of ssid (n ∷ ns) = if same_bytes n.ssid ssid then some n.password else password_of ssid ns

-- What a status and the networks after the call say.
abbrev pub Adds : Sizes → Bytes → Bytes → List Network → Bytes → Status × List Network → Type 0
Adds sz ssid password nets other (ok, nets') =
    (length nets' ≤ 4)
    × (password_of other nets' ≡ (
        if same_bytes ssid other
        then some (truncated sz.known_password password)
        else password_of other nets))
Adds sz ssid password nets other (no_mem, nets') =
    (password_of ssid nets ≡ none) × (length nets ≡ 4) × (nets' ≡ nets)
Adds sz ssid password nets other (not_found, nets') = ⊥
Adds sz ssid password nets other (invalid_state, nets') = ⊥

take_all : (k : ℕ) (xs : Bytes) → length xs ≤ k → take k xs ≡ xs
take_all zero [] h = refl
take_all zero (x ∷ xs) h = absurd (omega arith)
take_all (suc k) [] h = refl
take_all (suc k) (x ∷ xs) h = ap (◌∷◌ x) (take_all k xs (omega arith))

password_of-append :
    (ssid : Bytes) (ns : List Network) (n : Network)
    → password_of ssid (ns ++ n ∷ []) ≡ elim (password_of ssid ns) [
      | none ↦ if same_bytes n.ssid ssid then some n.password else none
      | some p ↦ some p
    ]
unfolding password_of
password_of-append ssid [] n = refl
password_of-append ssid (m ∷ ns) n = ground (arith, password_of-append ssid ns n)

-- No network has the name, or the one that has it is updated.
update_password_lem :
    (ssid password other : Bytes) (ns ns' : List Network)
    → update_password ssid password ns ≡ some ns'
    → (length ns' ≡ length ns)
      × (password_of other ns'
          ≡ (if same_bytes ssid other then some password else password_of other ns))
unfolding update_password password_of
update_password_lem ssid password other [] ns' h = absurd (ground arith)
update_password_lem ssid password other (n ∷ ns) ns' h =
    elim (Option-cases (update_password ssid password ns)) [
      | inl e ↦ ground (
        arith,
        same_bytes_iff n.ssid ssid,
        same_bytes_iff n.ssid other,
        same_bytes_iff ssid other,
      )
      | inr (ns1, e) ↦ ground (
        arith,
        same_bytes_iff n.ssid ssid,
        same_bytes_iff n.ssid other,
        same_bytes_iff ssid other,
        update_password_lem ssid password other ns ns1,
      )
    ]

update_password-none :
    (ssid password : Bytes) (ns : List Network)
    → update_password ssid password ns ≡ none
    → password_of ssid ns ≡ none
unfolding update_password password_of
update_password-none ssid password [] h = refl
update_password-none ssid password (n ∷ ns) h =
    ground (arith, update_password-none ssid password ns)

appended :
    (ssid other : Bytes) (ns : List Network) (n : Network)
    → n.ssid ≡ ssid
    → password_of ssid ns ≡ none
    → password_of other (ns ++ n ∷ [])
      ≡ (if same_bytes ssid other then some n.password else password_of other ns)
appended ssid other ns n e h =
    let same : same_bytes n.ssid other ≡ same_bytes ssid other =
      ap (λ (x : Bytes). same_bytes x other) e in
    elim (Bool-cases (same_bytes ssid other)) [
      | inl q ↦
          let absent : password_of other ns ≡ none =
            ap (λ (x : Bytes). password_of x ns) (sym ((same_bytes_iff ssid other).0 q)) ∙ h in
          ground (arith, password_of-append other ns n)
      | inr q ↦ ground (arith, password_of-append other ns n)
    ]

-- Adding a network whose name fits the array, to four known networks at most, succeeds unless the name is new and
-- there are four. Then at most four are known, a search for the name finds the password as far as it fits, and a
-- search for any other name finds what it found before. If it fails, nothing changes.
pub add_known_network-Adds :
    (sz : Sizes) (ssid password other : Bytes) (nets : List Network)
    → length ssid < sz.known_ssid
    → length nets ≤ 4
    → Adds sz ssid password nets other (add_known_network sz ssid password nets)
unfolding add_known_network
add_known_network-Adds sz ssid password other nets h l =
    let kept = truncated sz.known_password password in
    elim (Option-cases (update_password ssid kept nets)) [
      | inr (nets', e) ↦
          let (size, found) = update_password_lem ssid kept other nets nets' e in
          rw (e, add_known_network) (omega (arith, size), found)
      | inl e ↦
          let missing = update_password-none ssid kept nets e in
          elim (Bool-cases (leb 4 (length nets))) [
            | inl q ↦ rw (e, add_known_network) (rw q (missing, ground arith, refl))
            | inr q ↦
                let n : Network = record {
                  ssid = truncated sz.known_ssid ssid;
                  password = kept;
                  priority = 0;
                } in
                let whole : truncated sz.known_ssid ssid ≡ ssid =
                  take_all (sz.known_ssid - 1) ssid (omega arith) in
                rw (e, add_known_network)
                  (rw q (room nets n (ground arith), appended ssid other nets n whole missing))
          ]
    ]
  where
    room : (ns : List Network) (n : Network) → length ns < 4 → length (ns ++ n ∷ []) ≤ 4
    room ns n h = omega (arith, length-append ns (n ∷ []))
