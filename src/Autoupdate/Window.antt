-- ===== src/Autoupdate/Window.antt =====
-- The daily window of an update.
use roborock_mqtt_loxone.Common.{ℕ, ◌≢◌, ◌≡◌, not, arith}
use roborock_mqtt_loxone.Autoupdate.{within}

-- A window and the one with its ends swapped share no minute and leave none out, unless the ends
-- are equal.
within-complement :
    (current start end : ℕ)
    → start ≢ end
    → within current end start ≡ not (within current start end)
unfolding within
within-complement current start end h = ground arith
