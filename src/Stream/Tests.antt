-- ===== src/Stream/Tests.antt =====
-- The theorems of Stream at concrete names.
use skeyevss_backend_service.Prelude.{◌≡◌, ◌≢◌, refl, some}
use skeyevss_backend_service.Text.{Text, bytes}
use skeyevss_backend_service.Stream.{playback, produce, produce_at, produce_with, parse}
use skeyevss_backend_service.Stream.Counter.{playbacks_differ}
use skeyevss_backend_service.Stream.Names.{item, parse-produce}

abbrev camera : Text
camera = bytes "34020000001320000001"

abbrev channel : Text
channel = bytes "34020000001310000001"

parse-produce_example :
    (parse (produce_at 5 camera channel playback) ≡ some (item camera channel playback))
    × (parse (produce_with camera channel playback (bytes "9"))
        ≡ some (item camera channel playback))
parse-produce_example = parse-produce 5 camera channel playback (bytes "9") refl refl refl

playbacks_differ_example :
    (produce camera channel playback 5).0
    ≢ (produce camera channel playback (produce camera channel playback 5).1).0
playbacks_differ_example = playbacks_differ 5 camera channel
