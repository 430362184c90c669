-- ===== src/Version/Tests.antt =====
-- The theorems of Version at concrete versions.
use skeyevss_backend_service.Prelude.{◌≡◌, refl, if◌then◌else◌, nat_beq, length}
use skeyevss_backend_service.Text.{Text, bytes, split}
use skeyevss_backend_service.Version.{unequal, compare_versions}
use skeyevss_backend_service.Version.Order.{compare_parts, compare_versions_lem}

abbrev old : Text
old = bytes "1.12.3"

abbrev new : Text
new = bytes "1.21.0"

compare_versions_lem_example : compare_versions old new ≡ (
    if nat_beq (length (split b'.' old)) (length (split b'.' new))
    then compare_parts (split b'.' old) (split b'.' new)
    else unequal)
unfolding split
compare_versions_lem_example = compare_versions_lem old new (λ h. refl)
