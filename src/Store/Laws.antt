-- ===== src/Store/Laws.antt =====
-- pkg/state/store.go: what a save leaves on disk, and what a load finds.
use testenv_vm.Store.{
  FileError, StoreError, Files, parsed, state_dir, state_path, temp_path, install, write_state,
  save_data, save_in, save, parse, load,
}
use testenv_vm.Prelude.{
  String, ◌≡◌, refl, sym, ap, ◌∙◌, ◌≢◌, inl, inr, false, Option, none, some, arith, ◌==◌,
  Bool-cases, Option-cases, Result, ok, err,
}
use Prim.Native.String.{count}
use text.Mathlib.TextLemmas.{length-append}
use testenv_vm.Api.{EnvironmentState}

-- How a file system keeps its files: `content` is what a path holds.
pub record IsFileSystem {W : Type 0} (fs : Files W) (content : String → W → Option String)
    : Type 0 where
  pub mkdir_keeps :
      (dir path : String) (w : W) → content path (fs.mkdir_all dir w).1 ≡ content path w
  pub write_elsewhere :
      (at path bytes : String) (w : W)
      → at ≢ path
      → content path (fs.write_file at bytes w).1 ≡ content path w
  pub write_here :
      (at bytes : String) (w w' : W) (u : Unit {0})
      → fs.write_file at bytes w ≡ (ok u, w')
      → content at w' ≡ some bytes
  -- A rename that fails changes nothing, and one that succeeds moves the content.
  pub rename_fails :
      (from to path : String) (w w' : W) (e : FileError)
      → fs.rename from to w ≡ (err e, w')
      → content path w' ≡ content path w
  pub rename_here :
      (from to : String) (w w' : W) (u : Unit {0})
      → fs.rename from to w ≡ (ok u, w')
      → content to w' ≡ content from w
  pub remove_elsewhere :
      (at path : String) (w : W) → at ≢ path → content path (fs.remove_file at w).1 ≡ content path w
  pub reads :
      (path bytes : String) (w : W) → content path w ≡ some bytes → fs.read_file path w ≡ ok bytes

module _ {W : Type 0} (fs : Files W) (content : String → W → Option String)
    (files : IsFileSystem fs content) (base_dir : String) where
  temp_path-ne-state_path : (id : String) → temp_path fs base_dir id ≢ state_path fs base_dir id
  temp_path-ne-state_path id same =
      let longer = length-append (state_path fs base_dir id) ".tmp" in
      let equal = ap (λ (p : String). count p) same in absurd (omega arith)

  -- What the file of the state holds after a step: the new content, or, where the step fails, the old.
  abbrev pub Atomic : String → String → W → Result StoreError (Unit {0}) × W → Type 0
  Atomic id bytes w (ok _, w') = content (state_path fs base_dir id) w' ≡ some bytes
  Atomic id bytes w (err e, w') =
      content (state_path fs base_dir id) w' ≡ content (state_path fs base_dir id) w

  install-Atomic :
      (id bytes : String) (w : W) (renamed : Result FileError (Unit {0}) × W)
      → content (temp_path fs base_dir id) w ≡ some bytes
      → fs.rename (temp_path fs base_dir id) (state_path fs base_dir id) w ≡ renamed
      → Atomic id bytes w (install fs base_dir id renamed)
  unfolding install
  install-Atomic id bytes w (ok u, w') written done =
      files.rename_here (temp_path fs base_dir id) (state_path fs base_dir id) w w' u done ∙ written
  install-Atomic id bytes w (err e, w') written done =
      files.remove_elsewhere (temp_path fs base_dir id) (state_path fs base_dir id) w'
        (temp_path-ne-state_path id)
      ∙ files.rename_fails (temp_path fs base_dir id) (state_path fs base_dir id)
          (state_path fs base_dir id) w w' e done

  -- What held of the old file before the write holds after it.
  Atomic-transport :
      (id bytes : String) (w w' : W) (r : Result StoreError (Unit {0}) × W)
      → content (state_path fs base_dir id) w' ≡ content (state_path fs base_dir id) w
      → Atomic id bytes w' r
      → Atomic id bytes w r
  Atomic-transport id bytes w w' (ok u, w'') same h = h
  Atomic-transport id bytes w w' (err e, w'') same h = h ∙ same

  write_state-Atomic :
      (id bytes : String) (w : W) (written : Result FileError (Unit {0}) × W)
      → fs.write_file (temp_path fs base_dir id) bytes w ≡ written
      → Atomic id bytes w (write_state fs base_dir id written)
  unfolding write_state
  write_state-Atomic id bytes w (err e, w') done =
      ap (λ x. content (state_path fs base_dir id) x.1) (sym done)
      ∙ files.write_elsewhere (temp_path fs base_dir id) (state_path fs base_dir id) bytes w
          (temp_path-ne-state_path id)
  write_state-Atomic id bytes w (ok u, w') done =
      Atomic-transport id bytes w w'
        (install fs base_dir id
          (fs.rename (temp_path fs base_dir id) (state_path fs base_dir id) w'))
        (ap (λ x. content (state_path fs base_dir id) x.1) (sym done)
          ∙ files.write_elsewhere (temp_path fs base_dir id) (state_path fs base_dir id) bytes w
              (temp_path-ne-state_path id))
        (install-Atomic id bytes w'
          (fs.rename (temp_path fs base_dir id) (state_path fs base_dir id) w')
          (files.write_here (temp_path fs base_dir id) bytes w w' u done) refl)

  save_in-Atomic :
      (state : EnvironmentState) (bytes : String) (w : W) (made : Result FileError (Unit {0}) × W)
      → fs.marshal state ≡ some bytes
      → fs.mkdir_all (state_dir fs base_dir) w ≡ made
      → Atomic state.id bytes w (save_in fs base_dir state made)
  unfolding save_in save_data
  save_in-Atomic state bytes w (err e, w') encoded made =
      ap (λ x. content (state_path fs base_dir state.id) x.1) (sym made)
      ∙ files.mkdir_keeps (state_dir fs base_dir) (state_path fs base_dir state.id) w
  save_in-Atomic state bytes w (ok u, w') encoded made = rw encoded (
      Atomic-transport state.id bytes w w'
        (write_state fs base_dir state.id (fs.write_file (temp_path fs base_dir state.id) bytes w'))
        (ap (λ x. content (state_path fs base_dir state.id) x.1) (sym made)
          ∙ files.mkdir_keeps (state_dir fs base_dir) (state_path fs base_dir state.id) w)
        (write_state-Atomic state.id bytes w'
          (fs.write_file (temp_path fs base_dir state.id) bytes w') refl))

  encoded-Atomic :
      (state : EnvironmentState) (bytes : String) (w : W)
      → fs.marshal state ≡ some bytes
      → Atomic state.id bytes w (save fs base_dir state w)
  unfolding save
  encoded-Atomic state bytes w encoded = elim (Bool-cases (state.id == "")) [
    | inl empty ↦ rw empty refl
    | inr named ↦
        rw named
          (save_in-Atomic state bytes w (fs.mkdir_all (state_dir fs base_dir) w) encoded refl)
  ]

  -- What the file of the state holds after a save: the encoding of the state, or the old content.
  abbrev pub Replaced : EnvironmentState → W → Result StoreError (Unit {0}) × W → Type 0
  Replaced state w (ok _, w') =
      (bytes : String) × (fs.marshal state ≡ some bytes)
      × (content (state_path fs base_dir state.id) w' ≡ some bytes)
  Replaced state w (err e, w') =
      content (state_path fs base_dir state.id) w' ≡ content (state_path fs base_dir state.id) w

  Atomic-Replaced :
      (state : EnvironmentState) (bytes : String) (w : W) (r : Result StoreError (Unit {0}) × W)
      → fs.marshal state ≡ some bytes
      → Atomic state.id bytes w r
      → Replaced state w r
  Atomic-Replaced state bytes w (ok u, w') encoded held = (bytes, encoded, held)
  Atomic-Replaced state bytes w (err e, w') encoded held = held

  -- An encoding that fails comes after the directory is made, and nothing is written.
  unencoded-Replaced :
      (state : EnvironmentState) (w : W) (made : Result FileError (Unit {0}) × W)
      → fs.marshal state ≡ none
      → fs.mkdir_all (state_dir fs base_dir) w ≡ made
      → Replaced state w (save_in fs base_dir state made)
  unfolding save_in save_data
  unencoded-Replaced state w (err e, w') broken made =
      ap (λ x. content (state_path fs base_dir state.id) x.1) (sym made)
      ∙ files.mkdir_keeps (state_dir fs base_dir) (state_path fs base_dir state.id) w
  unencoded-Replaced state w (ok u, w') broken made = rw broken (
      ap (λ x. content (state_path fs base_dir state.id) x.1) (sym made)
      ∙ files.mkdir_keeps (state_dir fs base_dir) (state_path fs base_dir state.id) w)

  -- A save replaces the file of the state as a whole: after a success the file holds the encoding of the
  -- state, and after an error, whatever step failed, the encoding included, it holds what it held before.
  pub save-Atomic : (state : EnvironmentState) (w : W) → Replaced state w (save fs base_dir state w)
  unfolding save
  save-Atomic state w = elim (Option-cases (fs.marshal state)) [
    | inr (bytes, encoded) ↦
        Atomic-Replaced state bytes w (save fs base_dir state w) encoded
          (encoded-Atomic state bytes w encoded)
    | inl broken ↦ elim (Bool-cases (state.id == "")) [
      | inl empty ↦ rw empty refl
      | inr named ↦
          rw named (unencoded-Replaced state w (fs.mkdir_all (state_dir fs base_dir) w) broken refl)
    ]
  ]

  saved-content :
      (id bytes : String) (w : W) (r : Result StoreError (Unit {0}) × W)
      → r.0 ≡ ok tt
      → Atomic id bytes w r
      → content (state_path fs base_dir id) r.1 ≡ some bytes
  saved-content id bytes w (ok u, w') h held = held
  saved-content id bytes w (err e, w') h held = absurd cc

  save-named :
      (state : EnvironmentState) (w : W)
      → (save fs base_dir state w).0 ≡ ok tt
      → (state.id == "") ≡ false
  unfolding save
  save-named state w saved = elim (Bool-cases (state.id == "")) [
    | inr named ↦ named
    | inl empty ↦ absurd (cc (rw empty at saved))
  ]

  load-content :
      (state : EnvironmentState) (bytes : String) (w : W)
      → (state.id == "") ≡ false
      → fs.unmarshal bytes ≡ some state
      → content (state_path fs base_dir state.id) w ≡ some bytes
      → load fs base_dir state.id w ≡ ok state
  unfolding load parse
  load-content state bytes w named decoded held =
      rw (named, files.reads (state_path fs base_dir state.id) bytes w held) (ap parsed decoded)

  -- A state whose save succeeded is loaded again by its identifier, where JSON decodes its encoding
  -- into it.
  pub load-save :
      (state : EnvironmentState) (bytes : String) (w : W)
      → fs.marshal state ≡ some bytes
      → fs.unmarshal bytes ≡ some state
      → (save fs base_dir state w).0 ≡ ok tt
      → load fs base_dir state.id (save fs base_dir state w).1 ≡ ok state
  load-save state bytes w encoded decoded saved =
      load-content state bytes (save fs base_dir state w).1 (save-named state w saved) decoded (
        saved-content state.id bytes w (save fs base_dir state w) saved
          (encoded-Atomic state bytes w encoded))
