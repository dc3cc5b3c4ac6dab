-- ===== src/Coordinator/Identity/Reload.antt =====
-- `loadOrCreatePeerID` when a node is started again.
use p2p_distributed_system_m.Base.{
  ℕ, ◌≡◌, ◌≢◌, ◌<◌, refl, sym, ap, ◌∙◌, subst, Bytes, [], ◌∷◌, ◌++◌, true, Option, none, some,
  Result, ok, err, eqb, length, arith,
}
use mathlib.Core.List.{reverse, reverse-cons, reverse-append, reverse-reverse}
use p2p_distributed_system_m.Base.Hex.{
  encode_to_string, hex_digit, AreBytes, decode_string-encode_to_string, length-encode_to_string,
}
use p2p_distributed_system_m.Os.{Disk, DiskLaws}
use p2p_distributed_system_m.Dht.Xor.{key_from_hex}
use p2p_distributed_system_m.Coordinator.Identity.{
  drop_blank, bytes_trim, id_in, written_id, created_id, load_or_create_peer_id,
}

-- No blank stands in the text.
abbrev NoBlank : Bytes → Type 0
NoBlank [] = Unit
NoBlank (c ∷ cs) = (47 < c) × NoBlank cs

encode_to_string-NoBlank : (bs : Bytes) → NoBlank (encode_to_string bs)
unfolding encode_to_string hex_digit
encode_to_string-NoBlank [] = tt
encode_to_string-NoBlank (b ∷ bs) = (ground arith, (ground arith, encode_to_string-NoBlank bs))

drop_blank-NoBlank : (s : Bytes) → NoBlank s → drop_blank s ≡ s
unfolding drop_blank
drop_blank-NoBlank [] h = refl
drop_blank-NoBlank (c ∷ cs) h = ground arith

NoBlank-append : (s : Bytes) (c : ℕ) → NoBlank s → 47 < c → NoBlank (s ++ c ∷ [])
NoBlank-append [] c h k = (k, tt)
NoBlank-append (x ∷ s) c h k = (h.0, NoBlank-append s c h.1 k)

NoBlank-reverse : (s : Bytes) → NoBlank s → NoBlank (reverse s)
NoBlank-reverse [] h = tt
NoBlank-reverse (c ∷ s) h =
    subst NoBlank (sym (reverse-cons c s))
      (NoBlank-append (reverse s) c (NoBlank-reverse s h.1) h.0)

drop_line : (s : Bytes) → NoBlank s → drop_blank (10 ∷ s) ≡ s
unfolding drop_blank
drop_line s h = drop_blank-NoBlank s h

drop_blank_line : (s : Bytes) → NoBlank s → s ≢ [] → drop_blank (s ++ 10 ∷ []) ≡ s ++ 10 ∷ []
unfolding drop_blank
drop_blank_line [] h n = absurd (n refl)
drop_blank_line (c ∷ s) h n = ground arith

-- The end of the line that the file holds is dropped.
bytes_trim_line : (s : Bytes) → NoBlank s → s ≢ [] → bytes_trim (s ++ 10 ∷ []) ≡ s
unfolding bytes_trim
bytes_trim_line s h n =
    ap (λ t. reverse (drop_blank (reverse t))) (drop_blank_line s h n)
    ∙ ap (λ t. reverse (drop_blank t)) (reverse-append s (10 ∷ []))
    ∙ ap reverse (drop_line (reverse s) (NoBlank-reverse s h))
    ∙ reverse-reverse s

id_in_encoded :
    (buf : Bytes)
    → length buf ≡ 32
    → AreBytes buf
    → id_in (ok (encode_to_string buf ++ 10 ∷ [])) ≡ some (encode_to_string buf)
unfolding id_in key_from_hex
id_in_encoded buf l b =
    let long : length (encode_to_string buf) ≡ 64 = omega (arith, length-encode_to_string buf) in
    let some_text : encode_to_string buf ≢ [] = λ e. absurd (omega (arith, ap length e, long)) in
    let fits : eqb (length (encode_to_string buf)) 64 ≡ true = ground arith in
    rw
      (
        bytes_trim_line (encode_to_string buf) (encode_to_string-NoBlank buf) some_text,
        fits,
        decode_string-encode_to_string buf b,
      )
      refl

module _ (D : Disk) (laws : DiskLaws D) (path : Bytes) (entropy entropy' : Result Bytes)
    (random : (buf : Bytes) → entropy ≡ ok buf → (length buf ≡ 32) × AreBytes buf) where
  -- What a call leaves is found by the next one.
  abbrev Reloads : Result Bytes × D.Files → Type 0
  Reloads (err e, files) = Unit
  Reloads (ok pid, files) = load_or_create_peer_id D path entropy' files ≡ (ok pid, files)

  loads_again :
      (pid : Bytes) (files : D.Files)
      → id_in (D.read_file path files) ≡ some pid
      → Reloads (ok pid, files)
  unfolding load_or_create_peer_id
  loads_again pid files h = rw (h, load_or_create_peer_id) refl

  written_again :
      (buf : Bytes) (w : Option Bytes × D.Files) (files : D.Files)
      → entropy ≡ ok buf
      → D.write_file path (encode_to_string buf ++ 10 ∷ []) files ≡ w
      → Reloads (written_id D (encode_to_string buf) w)
  unfolding written_id
  written_again buf (none, f) files e w =
      let (long, bytes) = random buf e in
      loads_again (encode_to_string buf) f (
        ap id_in (laws.read-write path (encode_to_string buf ++ 10 ∷ []) files f w)
        ∙ id_in_encoded buf long bytes)
  written_again buf (some x, f) files e w = tt

  created_again :
      (r : Result Bytes) (files : D.Files) → entropy ≡ r → Reloads (created_id D path r files)
  unfolding created_id
  created_again (err x) files e = tt
  created_again (ok buf) files e =
      written_again buf (D.write_file path (encode_to_string buf ++ 10 ∷ []) files) files e refl

  loaded_again :
      (files : D.Files) (found : Option Bytes)
      → id_in (D.read_file path files) ≡ found
      → Reloads (elim found [ some s ↦ (ok s, files) | none ↦ created_id D path entropy files ])
  loaded_again files (some s) e = loads_again s files e
  loaded_again files none e = created_again entropy files refl

  -- Where the disk keeps what is written and the source of randomness gives 32 bytes, a node that has
  -- found or made its ID finds the same ID when it is started again, and writes nothing.
  pub load_or_create_peer_id_again :
      (pid : Bytes) (files files' : D.Files)
      → load_or_create_peer_id D path entropy files ≡ (ok pid, files')
      → load_or_create_peer_id D path entropy' files' ≡ (ok pid, files')
  load_or_create_peer_id_again pid files files' h =
      subst Reloads h (unfold load_or_create_peer_id in loaded_again files _ refl)
