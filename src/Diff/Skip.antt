-- ===== src/Diff/Skip.antt =====
-- The skip filter of core/diff.py: which paths are reviewed, and which are scanned as manifests.
pub mod Laws
use lgtmaybe.Prelude.{
  ℕ, ◌+◌, Bool, true, false, not, ◌&&◌, ◌||◌, List, [], ◌∷◌, ◌++◌, if◌then◌else◌, any, leb, ◌==◌,
}
use lgtmaybe.Text.{Text, codes, starts_with}
use lgtmaybe.Text.Words.{contains}
use lgtmaybe.Collections.{text_is_eq}
use lgtmaybe.Collections.Set.{has}

abbrev pub lockfiles : List Text
lockfiles =
    codes "package-lock.json"
    ∷ codes "yarn.lock"
    ∷ codes "pnpm-lock.yaml"
    ∷ codes "npm-shrinkwrap.json"
    ∷ codes "Cargo.lock"
    ∷ codes "Gemfile.lock"
    ∷ codes "poetry.lock"
    ∷ codes "Pipfile.lock"
    ∷ codes "composer.lock"
    ∷ codes "go.sum"
    ∷ codes "uv.lock"
    ∷ codes "bun.lock"
    ∷ codes "bun.lockb"
    ∷ codes "deno.lock"
    ∷ codes "flake.lock"
    ∷ codes "mix.lock"
    ∷ codes "Package.resolved"
    ∷ codes "gradle.lockfile"
    ∷ codes "pubspec.lock"
    ∷ codes "Podfile.lock"
    ∷ codes "packages.lock.json"
    ∷ []

abbrev pub manifests : List Text
manifests =
    codes "pyproject.toml"
    ∷ codes "setup.py"
    ∷ codes "setup.cfg"
    ∷ codes "package.json"
    ∷ codes "go.mod"
    ∷ codes "Cargo.toml"
    ∷ codes "Gemfile"
    ∷ codes "composer.json"
    ∷ codes "pom.xml"
    ∷ codes "build.gradle"
    ∷ codes "build.gradle.kts"
    ∷ codes "Pipfile"
    ∷ []

-- machine-written corpora
abbrev pub generated : List Text
generated = codes "llms.txt" ∷ codes "llms-full.txt" ∷ []

-- `_SKIP_FILENAMES`
abbrev pub skip_filenames : List Text
skip_filenames = lockfiles ++ generated

abbrev pub skip_dir_prefixes : List Text
skip_dir_prefixes =
    codes "vendor/"
    ∷ codes "node_modules/"
    ∷ codes "dist/"
    ∷ codes "build/"
    ∷ codes ".git/"
    ∷ codes "third_party/"
    ∷ codes "third-party/"
    ∷ codes "__generated__/"
    ∷ []

abbrev pub skip_glob_patterns : List Text
skip_glob_patterns =
    codes "*.min.js"
    ∷ codes "*.min.css"
    ∷ codes "*.snap"
    ∷ codes "*.ambr"
    ∷ codes "*.pb.go"
    ∷ codes "*.pb.py"
    ∷ codes "*_pb2.py"
    ∷ codes "*_pb2.pyi"
    ∷ codes "*.pb.cc"
    ∷ codes "*.pb.h"
    ∷ codes "*.g.dart"
    ∷ codes "*.freezed.dart"
    ∷ codes "*.mocks.dart"
    ∷ codes "*.generated.*"
    ∷ codes "*.d.ts"
    ∷ codes "*.js.map"
    ∷ codes "*.css.map"
    ∷ []

abbrev pub skip_extensions : List Text
skip_extensions =
    codes ".png"
    ∷ codes ".jpg"
    ∷ codes ".jpeg"
    ∷ codes ".gif"
    ∷ codes ".bmp"
    ∷ codes ".ico"
    ∷ codes ".svg"
    ∷ codes ".webp"
    ∷ codes ".tiff"
    ∷ codes ".exe"
    ∷ codes ".dll"
    ∷ codes ".so"
    ∷ codes ".dylib"
    ∷ codes ".a"
    ∷ codes ".o"
    ∷ codes ".obj"
    ∷ codes ".pyc"
    ∷ codes ".pyo"
    ∷ codes ".zip"
    ∷ codes ".tar"
    ∷ codes ".gz"
    ∷ codes ".bz2"
    ∷ codes ".xz"
    ∷ codes ".7z"
    ∷ codes ".rar"
    ∷ codes ".mp3"
    ∷ codes ".mp4"
    ∷ codes ".wav"
    ∷ codes ".ogg"
    ∷ codes ".avi"
    ∷ codes ".mov"
    ∷ codes ".mkv"
    ∷ codes ".pdf"
    ∷ codes ".woff"
    ∷ codes ".woff2"
    ∷ codes ".ttf"
    ∷ codes ".eot"
    ∷ codes ".class"
    ∷ codes ".jar"
    ∷ codes ".war"
    ∷ []

-- one character more in front of the last component
abbrev pub extend : Text → ℕ → Text
extend word c = word ++ c ∷ []

-- a component that counts: not empty, and not "."
abbrev pub counts : Text → Bool
counts [] = false
counts (c ∷ []) = not (c == b'.')
counts (c ∷ d ∷ s) = true

-- `last` is the last component that counts so far, `word` the component begun
unfoldable pub name_from : Text → Text → Text → Text
name_from last word [] = if counts word then word else last
name_from last word (c ∷ s) =
    let ended = name_from (if counts word then word else last) [] s in
    let grown = name_from last (extend word c) s in if c == b'/' then ended else grown

-- `PurePosixPath(path).name`
unfoldable pub name : Text → Text
unfolding name_from
name path = name_from [] [] path

-- The text from its last dot on, if a character that is no dot stands in front of it, as from Python
-- 3.14 on; earlier versions differ for a name that begins with two dots.
unfoldable pub suffix_from : Bool → Text → Text → Text
suffix_from begun found [] = found
suffix_from begun found (c ∷ s) =
    let dot = suffix_from begun (if begun then c ∷ s else found) s in
    let other = suffix_from true found s in if c == b'.' then dot else other

-- `PurePosixPath(path).suffix`
unfoldable pub suffix : Text → Text
unfolding suffix_from
suffix path = suffix_from false [] (name path)

-- `str.lower` as far as a set of ASCII texts can tell: besides the capital letters only the Kelvin sign
-- has a lower case in ASCII
abbrev pub lower_char : ℕ → ℕ
lower_char c = if leb 65 c && leb c 90 then c + 32 else if c == 8490 then 107 else c

abbrev pub lower : Text → Text
lower [] = []
lower (c ∷ s) = lower_char c ∷ lower s

-- a test on the rest of a text behind any number of characters
abbrev pub after_any : (Text → Bool) → Text → Bool
after_any test [] = test []
after_any test (c ∷ s) = test (c ∷ s) || after_any test s

abbrev pub after_char : ℕ → (Text → Bool) → Text → Bool
after_char p test [] = false
after_char p test (c ∷ s) = p == c && test s

abbrev pub ended : Text → Bool
ended [] = true
ended (c ∷ s) = false

-- `fnmatchcase(path, pattern)`; the patterns have no special character but "*"
unfoldable pub fnmatchcase : Text → Text → Bool
fnmatchcase path [] = ended path
fnmatchcase path (p ∷ pattern) =
    let star = after_any (λ s. fnmatchcase s pattern) path in
    let char = after_char p (λ s. fnmatchcase s pattern) path in if p == b'*' then star else char

-- the loop over the prefixes
unfoldable pub in_skipped_dir : Text → Bool
in_skipped_dir path =
    any (λ prefix. starts_with path prefix || contains (b'/' ∷ prefix) path) skip_dir_prefixes

unfoldable pub is_reviewable : Text → Bool
unfolding in_skipped_dir
is_reviewable path =
    if has (name path) skip_filenames
    then false
    else if has (lower (suffix path)) skip_extensions
    then false
    else if in_skipped_dir path
    then false
    else not (any (fnmatchcase path) skip_glob_patterns)

-- `s.endswith(end)`
unfoldable pub ends_with : Text → Text → Bool
ends_with end s = after_any (λ t. starts_with t end && starts_with end t) s

unfoldable pub is_scannable_manifest : Text → Bool
unfolding ends_with
is_scannable_manifest path =
    if has (name path) lockfiles || has (name path) manifests
    then true
    else starts_with (name path) (codes "requirements") && ends_with (codes ".txt") (name path)
