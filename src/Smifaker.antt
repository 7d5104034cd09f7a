-- ===== src/Smifaker.antt =====
-- cmd/smifaker/main.go: the stand-in for nvidia-smi that prints a file. The environment, the file
-- system and the standard output are parameters.
use gpuid.Base.{
  ℕ, suc, ◌≡◌, refl, ap, sym, ◌∙◌, Bool, true, false, ◌++◌, if◌then◌else◌, Option, none, some, Text,
  codes, is_empty,
}

-- What the code asks of os, io and filepath, over the files F and the state W. `true` is an error.
pub record Os (F W : Type 0) : Type 0 where
  pub getenv : Text → Text
  pub clean : Text → Text
  pub open_file : Text → W → Option F × W
  -- io.Copy to the standard output
  pub copy : F → W → Bool × W
  pub close : F → W → W

module _ {F W : Type 0} (os : Os F W) where
  unfoldable pub content_path : Text
  content_path =
      let path = os.getenv (codes "SMIFAKER_CONTENT_PATH") in
      os.clean (if is_empty path then codes "/data/nvidia-smi.xml" else path)

  -- what follows os.Open, with the deferred Close
  unfoldable pub stream : Option F × W → Bool × W
  stream (none, w) = (true, w)
  stream (some f, w) = let (failed, w') = os.copy f w in (failed, os.close f w')

  -- run
  unfoldable pub run : W → Bool × W
  unfolding stream
  run w = stream (os.open_file content_path w)

  -- main: the exit code; log.Fatalf exits with 1
  unfoldable pub main : W → ℕ × W
  main w = let (failed, w') = run w in (if failed then 1 else 0, w')

-- Open gives access to a content and opens one file, Close closes one, and a copy that succeeds
-- prints the content.
pub record IsOs {F W : Type 0} (os : Os F W) : Type 0 where
  pub content : F → Text
  pub printed : W → Text
  pub opened : W → ℕ
  pub open_prints : (path : Text) (w : W) → printed (os.open_file path w).1 ≡ printed w
  pub open_counts :
      (path : Text) (w w' : W) (f : F)
      → os.open_file path w ≡ (some f, w')
      → opened w' ≡ suc (opened w)
  pub open_fails :
      (path : Text) (w w' : W) → os.open_file path w ≡ (none, w') → opened w' ≡ opened w
  pub copy_prints :
      (f : F) (w : W) → (os.copy f w).0 ≡ false → printed (os.copy f w).1 ≡ printed w ++ content f
  pub copy_counts : (f : F) (w : W) → opened (os.copy f w).1 ≡ opened w
  pub close_prints : (f : F) (w : W) → printed (os.close f w) ≡ printed w
  pub close_counts : (f : F) (w : W) (n : ℕ) → opened w ≡ suc n → opened (os.close f w) ≡ n

module _ {F W : Type 0} (os : Os F W) (law : IsOs os) where
  open law use {content, printed, opened}

  -- How main ends: with exit code 0 only if the file was opened and its content printed.
  pub data Ends (w w' : W) : ℕ → Type 0 where
    streams :
        (f : F)
        → (os.open_file (content_path os) w).0 ≡ some f
        → printed w' ≡ printed w ++ content f
        → Ends w w' 0
    fails : Ends w w' 1

  -- main, once run has ended as r.
  abbrev IsEnd : W → Bool × W → Type 0
  IsEnd w r = (opened r.1 ≡ opened w) × Ends w r.1 (if r.0 then 1 else 0)

  copied-IsEnd :
      (w w' : W) (f : F) (failed : Bool)
      → os.open_file (content_path os) w ≡ (some f, w')
      → (os.copy f w').0 ≡ failed
      → IsEnd w (failed, os.close f (os.copy f w').1)
  copied-IsEnd w w' f failed h c = (
    law.close_counts f (os.copy f w').1 (opened w)
        (law.copy_counts f w' ∙ law.open_counts (content_path os) w w' f h),
    ends failed c,
  )
    where
      ends :
          (failed : Bool)
          → (os.copy f w').0 ≡ failed
          → Ends w (os.close f (os.copy f w').1) (if failed then 1 else 0)
      ends true c = fails
      ends false c = streams f (ap (λ r. r.0) h) (
          law.close_prints f (os.copy f w').1
          ∙ (law.copy_prints f w' c
              ∙ ap (λ t. t ++ content f)
                  (sym (ap (λ r. printed r.1) h) ∙ law.open_prints (content_path os) w)))

  stream-IsEnd :
      (w : W) (r : Option F × W) → os.open_file (content_path os) w ≡ r → IsEnd w (stream os r)
  unfolding stream
  stream-IsEnd w (none, w') h = (law.open_fails (content_path os) w w' h, fails)
  stream-IsEnd w (some f, w') h = copied-IsEnd w w' f (os.copy f w').0 h refl

  -- Whatever fails, main leaves no file open; and it exits with 0 only if the file at the content
  -- path was opened and its whole content was printed.
  pub main-Ends : (w : W) → (opened (main os w).1 ≡ opened w) × Ends w (main os w).1 (main os w).0
  unfolding main run
  main-Ends w = stream-IsEnd w (os.open_file (content_path os) w) refl
