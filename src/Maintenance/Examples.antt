-- ===== src/Maintenance/Examples.antt =====
-- A brush that wears out, and the mails that it causes.
use roborock_mqtt_loxone.Common.{ℕ, ◌*◌, ◌≤◌, ◌≡◌, refl, true, List, [], ◌∷◌, length, keep}
use roborock_mqtt_loxone.Maintenance.{
  Thresholds, critical, Wear, check_item, check, compute_consumable_percents,
}
use roborock_mqtt_loxone.Maintenance.Room.{within_day}
use roborock_mqtt_loxone.Maintenance.Budget.{ItemCheck, mail_times, mails_a_day}

abbrev limits : Thresholds
limits = record { warn_percent = 20; critical_percent = 10 }

abbrev an_hour : ℕ
an_hour = 3600000000000

abbrev brush : ℕ → ℕ → ℕ → ItemCheck
brush hours percent work_time = record {
  now = hours * an_hour;
  device = "Saugi";
  item = record { name = "main_brush"; percent = percent; work_time = work_time };
  delivered = true;
}

abbrev filter_check : ItemCheck
filter_check = record {
  now = 5 * an_hour;
  device = "Saugi";
  item = record { name = "filter"; percent = 5; work_time = 300 };
  delivered = true;
}

abbrev checks : List ItemCheck
checks =
    brush 1 25 100
    ∷ brush 2 20 110
    ∷ brush 3 19 120
    ∷ filter_check
    ∷ brush 10 10 190
    ∷ brush 20 9 200
    ∷ brush 35 8 210
    ∷ []

mail_times_test :
    mail_times limits "Saugi" "main_brush" checks []
    ≡ 2 * an_hour ∷ 10 * an_hour ∷ 35 * an_hour ∷ []
unfolding mail_times check_item
mail_times_test = refl

abbrev lifetimes : Wear
lifetimes = record {
  main_brush = 1080000;
  side_brush = 720000;
  filter = 540000;
  sensor = 108000;
  dust_collection = 0;
}

abbrev used : Wear
used = record {
  main_brush = 540000;
  side_brush = 720000;
  filter = 600000;
  sensor = 0;
  dust_collection = 70;
}

percents_test :
    compute_consumable_percents lifetimes used
    ≡ record { main_brush = 50; side_brush = 0; filter = 0; sensor = 100; dust_collection = 100 }
unfolding compute_consumable_percents
percents_test = refl

check_test :
    (check true limits an_hour
      (λ name. true)
      "Saugi"
      (compute_consumable_percents lifetimes used)
      used
      []).0
    ≡ record { severity = critical; device = "Saugi"; consumable = "side_brush" }
      ∷ record { severity = critical; device = "Saugi"; consumable = "filter" }
      ∷ []
unfolding check compute_consumable_percents
check_test = refl

mails_a_day_example :
    length (keep (within_day an_hour) (mail_times limits "Saugi" "main_brush" checks [])) ≤ 2
mails_a_day_example = mails_a_day limits an_hour "Saugi" "main_brush" checks refl refl
