-- ===== src/Examples/Reordered.antt =====
-- The small installation with a second event, and the same with the rows in another order.
use mathlib.Core.List.{Permᴰ}
use flyrank_capstone_meterin.Prelude.{◌≡◌, refl, List, [], ◌∷◌}
use flyrank_capstone_meterin.Models.{Plan, UsageEvent, api_call, output_tokens}
use flyrank_capstone_meterin.Cost.{default_pricing}
use flyrank_capstone_meterin.World.{World}
use flyrank_capstone_meterin.World.Orders.{Reorders}
use flyrank_capstone_meterin.Quota.{check_quota, get_all_quotas}
use flyrank_capstone_meterin.UsageApi.{compute_usage}
use flyrank_capstone_meterin.UsageApi.Orders.{row_order_unseen}
use flyrank_capstone_meterin.Examples.{noon, free_plan, pro_plan, old_event, tables, installation}

abbrev token_event : UsageEvent
token_event = record old_event {
  id = 32;
  idempotency_key = "new";
  usage_type = output_tokens;
  quantity = 70;
}

abbrev with_rows : List Plan → List UsageEvent → World
with_rows plans events = record installation {
  db = record tables { plans = plans; usage_events = events };
}

abbrev in_order : World
in_order = with_rows (free_plan ∷ pro_plan ∷ []) (old_event ∷ token_event ∷ [])

abbrev turned : World
turned = with_rows (pro_plan ∷ free_plan ∷ []) (token_event ∷ old_event ∷ [])

turned-Reorders : Reorders in_order turned
turned-Reorders = record {
  plans = Permᴰ.swap refl refl;
  subscriptions = Permᴰ.cons refl Permᴰ.nil;
  usage_events = Permᴰ.swap refl refl;
}

row_order_unseen_example :
    ((check_quota noon 1 api_call 2 in_order).0 ≡ (check_quota noon 1 api_call 2 turned).0)
    × ((get_all_quotas noon 1 in_order).0 ≡ (get_all_quotas noon 1 turned).0)
    × ((compute_usage default_pricing noon 1 in_order).0
        ≡ (compute_usage default_pricing noon 1 turned).0)
    × ((check_quota noon 1 api_call 2 in_order).1 ≡ in_order)
    × ((get_all_quotas noon 1 in_order).1 ≡ in_order)
    × ((compute_usage default_pricing noon 1 in_order).1 ≡ in_order)
row_order_unseen_example =
    row_order_unseen default_pricing noon 1 in_order turned turned-Reorders api_call 2
