-- ===== src/Bootstrap/Shim.antt =====
-- internal/bootstrap/shim.go: the userdata of a node, rendered line by line.
use queuezero.Prelude.{
  ℕ, ◌≡◌, ◌≢◌, ◌≤◌, String, ◌<>◌, ◌&&◌, List, [], ◌∷◌, ◌++◌, ◌==◌, eq_iff, if◌then◌else◌, leb,
  Result, ok, err, arith, ◌⊎◌, inl, inr, ◌<◌, subst, sym, ap, Bool-cases,
}
use mathlib.Core.List.{append_assoc}
use Prim.Native.String.{len}
use queuezero.Bootstrap.{Mount, format_mount_spec, mount_paths}

pub record Params : Type 0 where
  pub s3_uri : String
  pub sha256 : String
  pub region : String
  pub log_path : String
  pub mounts : List Mount
  pub controller_host : String

pub data ShimError : Type 0 where
  no_s3_uri no_sha256 no_region : ShimError
  too_long : ℕ → ShimError

-- Lines that each end in a newline.
abbrev unlines : List String → String
unlines [] = ""
unlines (s ∷ rest) = s <> ("\n" <> unlines rest)

fetch : Params → String → List String
fetch p log =
    "#!/usr/bin/env bash"
    ∷ "# queuezero bootstrap shim — fetch-and-exec only, NO application logic (§11)."
    ∷ "set -euo pipefail"
    ∷ ("exec > >(tee -a " <> (log <> ") 2>&1"))
    ∷ ""
    ∷ "SENTINEL=/var/lib/q0/bootstrap.done"
    ∷ "if [ -f \"$SENTINEL\" ]; then"
    ∷ "  echo \"q0-bootstrap: already completed; skipping\""
    ∷ "  exit 0"
    ∷ "fi"
    ∷ "mkdir -p /var/lib/q0 /opt/q0/bootstrap"
    ∷ ""
    ∷ ("echo \"q0-bootstrap: fetching " <> (p.s3_uri <> "\""))
    ∷ ("aws --region "
        <> (p.region <> (" s3 cp \"" <> (p.s3_uri <> "\" /tmp/q0-bootstrap.tar.gz"))))
    ∷ ""
    ∷ ("echo \"" <> (p.sha256 <> "  /tmp/q0-bootstrap.tar.gz\" | sha256sum -c -"))
    ∷ ""
    ∷ "tar -xzf /tmp/q0-bootstrap.tar.gz -C /opt/q0/bootstrap"
    ∷ "touch \"$SENTINEL\""
    ∷ []

mount_lines : List Mount → List String
mount_lines ms =
    if format_mount_spec ms == ""
    then []
    else ("Q0_MOUNT_SPEC='" <> (format_mount_spec ms <> "'"))
      ∷ ("Q0_MOUNT_PATHS='" <> (mount_paths ms <> "'"))
      ∷ []

host_lines : String → List String
host_lines host = if host == "" then [] else ("Q0_CONTROLLER_HOST='" <> (host <> "'")) ∷ []

-- The block of the node's configuration, where there is any.
deliver : Params → List String
unfolding mount_lines host_lines
deliver p =
    if (format_mount_spec p.mounts == "") && (p.controller_host == "")
    then []
    else ("" ∷ "# Deliver node config (shared-storage spec, controller host) for bootstrap.sh +"
        ∷ "# q0-spored to consume. The shim does NOT mount or configure slurmd — it only"
        ∷ "# writes the known location (§11/#9)." ∷ "mkdir -p /etc/q0"
        ∷ "cat > /etc/q0/mounts <<'Q0_MOUNTS_EOF'" ∷ [])
      ++ (mount_lines p.mounts
          ++ (host_lines p.controller_host ++ "Q0_MOUNTS_EOF" ∷ ". /etc/q0/mounts" ∷ []))

execute : List String
execute =
    "" ∷ "echo \"q0-bootstrap: executing entrypoint\"" ∷ "exec /opt/q0/bootstrap/bootstrap.sh" ∷ []

abbrev log_or_default : String → String
log_or_default s = if s == "" then "/var/log/q0-bootstrap.log" else s

pub render : Params → String
unfolding fetch deliver execute
render p = unlines (fetch p (log_or_default p.log_path) ++ (deliver p ++ execute))

abbrev pub max_user_data_bytes : ℕ
max_user_data_bytes = 16384

-- Shim
pub shim : Params → Result ShimError String
unfolding render
shim p =
    if p.s3_uri == ""
    then err no_s3_uri
    else if p.sha256 == ""
    then err no_sha256
    else if p.region == ""
    then err no_region
    else if leb (len (render p)) max_user_data_bytes
    then ok (render p)
    else err (too_long (len (render p)))

-- The commands of a script that trusts what it has fetched only by its digest: without -e an error would be
-- passed over; the archive is fetched, the digest compared, the archive unpacked, and the last command is the
-- entrypoint of what was unpacked. Nothing stands between the fetch, the comparison and the unpacking.
pub record IsCheckedFetch (p : Params) (s : String) : Type 0 where
  pub before : List String
  pub between : List String
  pub script :
      s
      ≡ unlines (
          "#!/usr/bin/env bash"
            ∷ "# queuezero bootstrap shim — fetch-and-exec only, NO application logic (§11)."
            ∷ "set -euo pipefail" ∷ before
          ++ ("aws --region "
              <> (p.region <> (" s3 cp \"" <> (p.s3_uri <> "\" /tmp/q0-bootstrap.tar.gz"))))
            ∷ ""
            ∷ ("echo \"" <> (p.sha256 <> "  /tmp/q0-bootstrap.tar.gz\" | sha256sum -c -"))
            ∷ ""
            ∷ "tar -xzf /tmp/q0-bootstrap.tar.gz -C /opt/q0/bootstrap"
            ∷ between
          ++ "exec /opt/q0/bootstrap/bootstrap.sh" ∷ [])

render-IsCheckedFetch : (p : Params) → IsCheckedFetch p (render p)
unfolding render fetch execute
render-IsCheckedFetch p = record {
  before =
      ("exec > >(tee -a " <> (log_or_default p.log_path <> ") 2>&1"))
      ∷ ""
      ∷ "SENTINEL=/var/lib/q0/bootstrap.done"
      ∷ "if [ -f \"$SENTINEL\" ]; then"
      ∷ "  echo \"q0-bootstrap: already completed; skipping\""
      ∷ "  exit 0"
      ∷ "fi"
      ∷ "mkdir -p /var/lib/q0 /opt/q0/bootstrap"
      ∷ ""
      ∷ ("echo \"q0-bootstrap: fetching " <> (p.s3_uri <> "\""))
      ∷ [];
  between =
      "touch \"$SENTINEL\""
      ∷ (deliver p ++ "" ∷ "echo \"q0-bootstrap: executing entrypoint\"" ∷ []);
  script =
      ap (λ (ls : List String). unlines (fetch p (log_or_default p.log_path) ++ ls))
        (sym (
          append_assoc (deliver p) ("" ∷ "echo \"q0-bootstrap: executing entrypoint\"" ∷ [])
            ("exec /opt/q0/bootstrap/bootstrap.sh" ∷ [])));
}

-- A shim is within the size that EC2 takes, names where its scripts are and the region, and checks what it
-- fetches against the digest.
pub record IsShim (p : Params) (s : String) : Type 0 where
  pub fits : len s ≤ max_user_data_bytes
  pub rendered : s ≡ render p
  pub located : p.s3_uri ≢ ""
  pub pinned : p.sha256 ≢ ""
  pub regional : p.region ≢ ""
  pub checked : IsCheckedFetch p s

made-IsShim :
    (p : Params) (s : String)
    → shim p ≡ ok s
    → (s ≡ render p)
      × (p.s3_uri ≢ "")
      × (p.sha256 ≢ "")
      × (p.region ≢ "")
      × (len s ≤ max_user_data_bytes)
unfolding shim
made-IsShim p s h = ground (arith, eq_iff p.s3_uri "", eq_iff p.sha256 "", eq_iff p.region "")

pub shim-IsShim : (p : Params) (s : String) → shim p ≡ ok s → IsShim p s
shim-IsShim p s h =
    let (rendered, located, pinned, regional, fits) = made-IsShim p s h in
    record {
      fits = fits;
      rendered = rendered;
      located = located;
      pinned = pinned;
      regional = regional;
      checked = subst (IsCheckedFetch p) (sym rendered) (render-IsCheckedFetch p);
    }

-- With an address and a digest, a shim fails only for the region, or for its size.
pub shim-fails :
    (p : Params) (e : ShimError)
    → p.s3_uri ≢ ""
    → p.sha256 ≢ ""
    → shim p ≡ err e
    → (p.region ≡ "") ⊎ max_user_data_bytes < len (render p)
unfolding shim
shim-fails p e located pinned h = elim (Bool-cases (p.region == "")) [
  | inl e ↦ inl (ground (arith, eq_iff p.region ""))
  | inr e ↦ inr (ground (arith, eq_iff p.s3_uri "", eq_iff p.sha256 ""))
]
