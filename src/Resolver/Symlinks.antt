-- ===== src/Resolver/Symlinks.antt =====
-- How crates/snxcore/src/platform/linux/resolver.rs finds the file behind /etc/resolv.conf and the resolver
-- that owns it.
use snx_rs.Prelude.{
  ℕ, zero, suc, ◌≤◌, ◌<◌, Bool, true, false, Option, none, some, List, any, ◌≡◌, refl, String,
  arith, if◌then◌else◌,
}
use snx_rs.Prelude.Result.{Result, ok, err, is_ok, ◌>>=◌}
use snx_rs.Prelude.Text.{Text, codes, text_eq}

pub data ResolverType : Type 0 where
  systemd_resolved : ResolverType
  resolv_conf : Text → ResolverType

-- The file system: whether a path is a link, its target, the parent of a path, a path joined to it,
-- and the components of the path with no link in it.
pub record Paths : Type 0 where
  pub is_symlink : Text → Result Bool
  pub read_link : Text → Result Text
  pub parent : Text → Option Text
  pub join : Text → Text → Text
  pub canonical_components : Text → Result (List Text)

-- `with_context`: the message of the outermost error is shown.
unfoldable pub with_context {ℓ} : {A : Type ℓ} → Result A → String → Result A
with_context (ok a) message = ok a
with_context (err e) message = err message

module _ (paths : Paths) where
  unfoldable pub absolute_target : Text → Text → Text
  absolute_target path link_target = elim (paths.parent path) [
    | some parent ↦ paths.join parent link_target
    | none ↦ link_target
  ]

  unfoldable pub read_symlinks : Text → ℕ → Result Text
  unfolding absolute_target with_context
  read_symlinks path zero = err "Cannot resolve symlink, possible loop"
  read_symlinks path (suc depth) =
      with_context (paths.is_symlink path) "Failed to get symlink metadata" >>= λ linked.
      let follow =
        with_context (paths.read_link path) "Failed to read symlink target" >>= λ link_target.
        with_context (read_symlinks (absolute_target path link_target) depth)
          "Failed to resolve symlink" in
      if linked then follow else ok path

  -- Without the cache of its results.
  unfoldable pub detect_resolver : Text → Result ResolverType
  unfolding read_symlinks text_eq
  detect_resolver path = read_symlinks path 10 >>= λ resolve_conf_path.
      paths.canonical_components resolve_conf_path >>= λ components. ok (
        if any (λ c. text_eq c (codes "systemd")) components
        then systemd_resolved
        else resolv_conf resolve_conf_path)

  -- The links that lead from one path to another that is none.
  pub data Leads : Text → Text → ℕ → Type 0 where
    ends : (path : Text) → paths.is_symlink path ≡ ok false → Leads path path 0
    follows :
        (path target end : Text) (n : ℕ)
        → paths.is_symlink path ≡ ok true
        → paths.read_link path ≡ ok target
        → Leads (absolute_target path target) end n
        → Leads path end (suc n)

  reaches :
      (path end : Text) (n depth : ℕ)
      → Leads path end n
      → n < depth
      → read_symlinks path depth ≡ ok end
  unfolding read_symlinks with_context
  reaches path end n zero links h = absurd (omega arith)
  reaches path _ zero (suc depth) (ends _ file) h = rw (file, read_symlinks) refl
  reaches path end (suc n) (suc depth) (follows _ target _ _ linked read rest) h =
      rw
        (
          linked,
          read,
          reaches (absolute_target path target) end n depth rest (omega arith),
          read_symlinks,
        )
        refl

  failing :
      (r : Result Text) (message : String)
      → is_ok r ≡ false
      → is_ok (with_context r message) ≡ false
  unfolding with_context
  failing (ok a) message h = h
  failing (err e) message h = refl

  too_many :
      (path end : Text) (n depth : ℕ)
      → Leads path end n
      → depth ≤ n
      → is_ok (read_symlinks path depth) ≡ false
  unfolding read_symlinks with_context
  too_many path end n zero links h = refl
  too_many path _ zero (suc depth) (ends _ file) h = absurd (omega arith)
  too_many path end (suc n) (suc depth) (follows _ target _ _ linked read rest) h =
      rw (linked, read, read_symlinks)
        (failing (read_symlinks (absolute_target path target) depth) "Failed to resolve symlink"
          (too_many (absolute_target path target) end n depth rest (omega arith)))

  -- A path that leads over `n` links to one that is none is followed to it if there are fewer than
  -- `depth` links, and else ends with an error.
  pub read_symlinks-Leads :
      (path end : Text) (n depth : ℕ)
      → Leads path end n
      → (n < depth → read_symlinks path depth ≡ ok end)
        × (depth ≤ n → is_ok (read_symlinks path depth) ≡ false)
  read_symlinks-Leads path end n depth links =
      (reaches path end n depth links, too_many path end n depth links)
