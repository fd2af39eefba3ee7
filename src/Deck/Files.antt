-- ===== src/Deck/Files.antt =====
-- Files that are read only if they are private: _read_wp5_approval_bytes, read_private_role_file.
use konnect_oidc_fapi2_keycl.Common.{
  ℕ, ◌+◌, Bool, false, not, ◌&&◌, ◌||◌, eqb, leb, length, if◌then◌else◌,
}
use konnect_oidc_fapi2_keycl.Python.Text.{Text, Bytes, str}
use konnect_oidc_fapi2_keycl.Python.Json.{Json}
use konnect_oidc_fapi2_keycl.Program.{done, call, from, check, finally, ◌>>=◌, ◌>>◌}
use konnect_oidc_fapi2_keycl.Deck.Request.{
  is_dir, is_symlink, open_nofollow, fstat, read, close, Script, Parts, returned, unless_os_error,
  value_error, Stat,
}

-- `S_IMODE(mode) == 0o600`
abbrev pub is_private : Stat → Bool
is_private info = eqb info.mode 0o600

-- A regular file, of the mode that is asked for, of at most `limit` bytes: also after it is read.
unfoldable pub read_bounded : ℕ → (Stat → Bool) → ℕ → Text → Script Bytes
read_bounded descriptor is_safe limit message = do
  info ← call (fstat descriptor) returned
  check (info.is_regular && is_safe info && leb info.size limit) (value_error message)
  content ← call (read descriptor (limit + 1)) returned
  check (leb (length content) limit) (value_error message)
  done content

unfoldable pub read_wp5_approval_bytes : Parts → Text → Script Bytes
unfolding read_bounded
read_wp5_approval_bytes parts path = do
  check parts.has_nofollow
      (value_error (str "third-party runtime approval cannot be safely opened on this platform"))
  descriptor ←
      call (open_nofollow path)
        (unless_os_error (str "third-party runtime approval receipt is missing or unsafe"))
  finally
      (read_bounded descriptor is_private 16384
        (str "third-party runtime approval receipt must be a regular mode-0600 file under 16 KiB"))
      (call (close descriptor) returned)

abbrev pub generated : Text
generated = str ".generated"

-- A directory that is no symbolic link.
unfoldable pub is_safe_directory : Text → Script Bool
is_safe_directory path =
    call (is_symlink path) λ link. if link then done false else call (is_dir path) done

-- What is done with the content of the role file, inside the same `try`.
unfoldable pub load_role_file : Parts → Bool → ℕ → Script Json
unfolding read_bounded
load_role_file parts require_private_mode descriptor = do
  raw ←
      read_bounded descriptor (λ info. not require_private_mode || is_private info) 1048576
        (str "role-scoped decK input must be a regular file with safe permissions under 1 MiB")
  from (parts.loads_last raw) (value_error (str "role-scoped decK inputs are malformed"))

unfoldable pub read_private_role_file : Parts → Text → Bool → Script Json
unfolding is_safe_directory load_role_file
read_private_role_file parts path require_private_mode = do
  let unsafe_directory = value_error (str "role-scoped decK input directory is missing or unsafe")
  check parts.has_nofollow unsafe_directory
  is_safe ← is_safe_directory generated
  check is_safe unsafe_directory
  descriptor ←
      call (open_nofollow path)
        (unless_os_error (str "role-scoped decK inputs are missing or unsafe"))
  finally (load_role_file parts require_private_mode descriptor) (call (close descriptor) returned)
