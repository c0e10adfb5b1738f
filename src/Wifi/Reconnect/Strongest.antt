-- ===== src/Wifi/Reconnect/Strongest.antt =====
-- The choice of `connect_from_scan_results`: the strongest access point of a known network.
use esp_components.Base.{
  ℕ, suc, ◌+◌, Bool, true, false, ◌&&◌, ◌||◌, List, [], ◌∷◌, none, some, if◌then◌else◌, Bytes,
  same_bytes, same_bytes_iff, get_elem?, All, ◌≡◌, refl, sym, ap, ◌∙◌, ◌⊎◌, inl, inr, arith,
  Bool-cases, subst,
}
use esp_components.Base.Int.{
  ℤ, negsuc, ltb_ℤ, ltb_ℤ_irrefl, ltb_ℤ_trans, not_ltb_ℤ_trans, ltb_ℤ_asym,
}
use esp_components.Wifi.State.{Network, Heard}
use esp_components.Wifi.Reconnect.{Best, hear, hear_all, choose}

-- Whether an access point belongs to a known network.
abbrev pub is_known : List Network → Heard → Bool
is_known [] h = false
is_known (n ∷ ns) h = same_bytes n.ssid h.ssid || is_known ns h

-- An access point of this name was heard at this strength.
abbrev pub HeardAt : Bytes → ℤ → List Heard → Type 0
HeardAt ssid rssi [] = ⊥
HeardAt ssid rssi (h ∷ hs) = ((ssid ≡ h.ssid) × (h.rssi ≡ rssi)) ⊎ HeardAt ssid rssi hs

-- What one access point has made of the choice: nothing, or it is the choice, from place `k` on.
abbrev Taken : ℕ → List Network → Heard → Best → Best → Type 0
Taken k ns h b b' =
    (b' ≡ b)
    ⊎ ((j : ℕ) × (n : Network) × (b'.index ≡ some (k + j))
        × (get_elem? ns j ≡ some n)
        × (n.ssid ≡ h.ssid)
        × (b'.rssi ≡ h.rssi)
        × (ltb_ℤ b.rssi b'.rssi ≡ true))

hear_step :
    (k : ℕ) (n : Network) (ns : List Network) (h : Heard) (b : Best) (t : Bool)
    → (same_bytes n.ssid h.ssid && ltb_ℤ b.rssi h.rssi) ≡ t
    → hear k (n ∷ ns) h b
      ≡ hear (k + 1) ns h (if t then record { index = some k; rssi = h.rssi } else b)
unfolding hear
hear_step k n ns h b t q =
    ap (λ (t : Bool). hear (k + 1) ns h (if t then record { index = some k; rssi = h.rssi } else b))
      q

hear-Taken : (k : ℕ) (ns : List Network) (h : Heard) (b : Best) → Taken k ns h b (hear k ns h b)
unfolding hear
hear-Taken k [] h b = inl refl
hear-Taken k (n ∷ ns) h b = elim (Bool-cases (same_bytes n.ssid h.ssid && ltb_ℤ b.rssi h.rssi)) [
  | inr q ↦
      subst (Taken k (n ∷ ns) h b) (sym (hear_step k n ns h b false q))
        (elim (hear-Taken (k + 1) ns h b) [
          | inl e ↦ inl e
          | inr (j, m, i, g, s, r, l) ↦ inr (suc j, m, i ∙ ap some (omega arith), g, s, r, l)
        ])
  | inl q ↦
      let taken : Best = record { index = some k; rssi = h.rssi } in
      let same : n.ssid ≡ h.ssid = (same_bytes_iff n.ssid h.ssid).0 (ground (arith, q)) in
      let more : ltb_ℤ b.rssi h.rssi ≡ true = ground (arith, q) in
      subst (Taken k (n ∷ ns) h b) (sym (hear_step k n ns h b true q))
        (elim (hear-Taken (k + 1) ns h taken) [
          | inl e ↦ inr (
            0,
            n,
            ap (λ (x : Best). x.index) e ∙ ap some (omega arith),
            refl,
            same,
            ap (λ (x : Best). x.rssi) e,
            rw e more,
          )
          | inr (j, m, i, g, s, r, l) ↦ inr (
            suc j,
            m,
            i ∙ ap some (omega arith),
            g,
            s,
            r,
            ltb_ℤ_trans b.rssi h.rssi (hear (k + 1) ns h taken).rssi more l,
          )
        ])
]

below : (a b : Bool) → b ≡ false → (a && b) ≡ false
below true b h = h
below false b h = refl

-- `x` is the choice before, `y` the access point's strength and `z` the choice after.
stays :
    (same known : Bool) (x y z : ℤ)
    → (same && ltb_ℤ x y) ≡ false
    → ltb_ℤ z x ≡ false
    → (known && ltb_ℤ z y) ≡ false
    → ((same || known) && ltb_ℤ z y) ≡ false
stays false known x y z q w h = h
stays true known x y z q w h = not_ltb_ℤ_trans z x y w q

-- The choice is at least as strong as it was, and as the access point if that is known.
hear_strong :
    (k : ℕ) (ns : List Network) (h : Heard) (b : Best)
    → (ltb_ℤ (hear k ns h b).rssi b.rssi ≡ false)
      × ((is_known ns h && ltb_ℤ (hear k ns h b).rssi h.rssi) ≡ false)
unfolding hear
hear_strong k [] h b = (ltb_ℤ_irrefl b.rssi, refl)
hear_strong k (n ∷ ns) h b = elim (Bool-cases (same_bytes n.ssid h.ssid && ltb_ℤ b.rssi h.rssi)) [
  | inr q ↦
      let (weaker, above) = hear_strong (k + 1) ns h b in
      rw (hear_step k n ns h b false q) (
        weaker,
        stays (same_bytes n.ssid h.ssid) (is_known ns h) b.rssi h.rssi (hear (k + 1) ns h b).rssi q
            weaker above,
      )
  | inl q ↦
      let taken : Best = record { index = some k; rssi = h.rssi } in
      let more : ltb_ℤ b.rssi h.rssi ≡ true = ground (arith, q) in
      let (above, _) = hear_strong (k + 1) ns h taken in
      rw (hear_step k n ns h b true q) (
        not_ltb_ℤ_trans (hear (k + 1) ns h taken).rssi h.rssi b.rssi above
            (ltb_ℤ_asym b.rssi h.rssi more),
        below (same_bytes n.ssid h.ssid || is_known ns h)
            (ltb_ℤ (hear (k + 1) ns h taken).rssi h.rssi) above,
      )
]

-- What the list of access points has made of the choice.
abbrev pub Chosen : List Network → List Heard → Best → Best → Type 0
Chosen ns hs b b' =
    (b' ≡ b)
    ⊎ ((j : ℕ) × (n : Network) × (b'.index ≡ some j)
        × (get_elem? ns j ≡ some n)
        × HeardAt n.ssid b'.rssi hs
        × (ltb_ℤ b.rssi b'.rssi ≡ true))

hear_all-Chosen :
    (ns : List Network) (hs : List Heard) (b : Best) → Chosen ns hs b (hear_all ns hs b)
unfolding hear_all
hear_all-Chosen ns [] b = inl refl
hear_all-Chosen ns (h ∷ hs) b = elim (hear_all-Chosen ns hs (hear 0 ns h b)) [
  | inr (j, n, i, g, at, l) ↦ inr (
    j,
    n,
    i,
    g,
    inr at,
    elim (hear-Taken 0 ns h b) [
      | inl e ↦ sym (ap (λ (x : Best). ltb_ℤ x.rssi (hear_all ns hs (hear 0 ns h b)).rssi) e) ∙ l
      | inr (j', n', i', g', s', r', l') ↦
          ltb_ℤ_trans b.rssi (hear 0 ns h b).rssi (hear_all ns hs (hear 0 ns h b)).rssi l' l
    ],
  )
  | inl e ↦ elim (hear-Taken 0 ns h b) [
    | inl e' ↦ inl (e ∙ e')
    | inr (j, n, i, g, s, r, l) ↦ inr (
      j,
      n,
      ap (λ (x : Best). x.index) e ∙ i ∙ ap some (omega arith),
      g,
      inl (s, sym r ∙ sym (ap (λ (x : Best). x.rssi) e)),
      ap (λ (x : Best). ltb_ℤ b.rssi x.rssi) e ∙ l,
    )
  ]
]

-- No known access point of the list is stronger.
abbrev pub Strongest : List Network → ℤ → List Heard → Type 0
Strongest ns rssi = All (λ (h : Heard). (is_known ns h && ltb_ℤ rssi h.rssi) ≡ false)

hear_all_strong :
    (ns : List Network) (hs : List Heard) (b : Best)
    → (ltb_ℤ (hear_all ns hs b).rssi b.rssi ≡ false) × Strongest ns (hear_all ns hs b).rssi hs
unfolding hear_all
hear_all_strong ns [] b = (ltb_ℤ_irrefl b.rssi, tt)
hear_all_strong ns (h ∷ hs) b =
    let (kept, above) = hear_strong 0 ns h b in
    let (later, rest) = hear_all_strong ns hs (hear 0 ns h b) in
    let final = (hear_all ns hs (hear 0 ns h b)).rssi in
    (
      not_ltb_ℤ_trans final (hear 0 ns h b).rssi b.rssi later kept,
      (weaken (is_known ns h) final (hear 0 ns h b).rssi h.rssi later above, rest),
    )
  where
    weaken :
        (known : Bool) (z x y : ℤ)
        → ltb_ℤ z x ≡ false
        → (known && ltb_ℤ x y) ≡ false
        → (known && ltb_ℤ z y) ≡ false
    weaken true z x y h k = not_ltb_ℤ_trans z x y h k
    weaken false z x y h k = refl

-- Where the choice starts.
abbrev pub nothing_yet : Best
nothing_yet = record { index = none; rssi = negsuc 99 }

-- The choice among the access points that were heard is none at -100 dBm, or the place of a known network that was
-- heard at the strength noted, above -100 dBm; and no access point of a known network is stronger.
pub choose-Chosen :
    (ns : List Network) (hs : List Heard)
    → Chosen ns hs nothing_yet (choose ns hs) × Strongest ns (choose ns hs).rssi hs
unfolding choose
choose-Chosen ns hs = (hear_all-Chosen ns hs nothing_yet, (hear_all_strong ns hs nothing_yet).1)
