-- ===== src/Audio/Tests.antt =====
-- The theorems of Audio at concrete samples and packets.
use skeyevss_backend_service.Prelude.{◌+◌, ◌/◌, ◌≤◌, refl, negsuc}
use skeyevss_backend_service.Audio.{alaw2linear, ulaw2linear, linear2alaw, linear2ulaw}
use skeyevss_backend_service.Audio.Codes.{dist, magnitude, codes_close}

codes_close_example :
    (dist (alaw2linear (linear2alaw (negsuc 20000))) (negsuc 20000)
      ≤ 8 + magnitude (negsuc 20000) / 32)
    × (dist (ulaw2linear (linear2ulaw (negsuc 20000))) (negsuc 20000)
        ≤ 8 + magnitude (negsuc 20000) / 32)
codes_close_example = codes_close (negsuc 20000) refl
