-- ===== src/Mpesa/Creds/Laws.antt =====
-- Whose Daraja app a payment of a zone uses (services/mpesa.go: `resolveMpesaCreds`).
use zyranet_api.Base.{ℕ, ◌≡◌, refl, Bool, true, false, some, List, [], find_first, ◌==◌}
use zyranet_api.Text.{Text}
use zyranet_api.Models.{Zone}
use zyranet_api.Mpesa.Creds.{
  Creds, MpesaConfig, OrgMpesaConfig, CredsDb, CredsStmt, find_zone, find_config, is_own_config,
  resolve_with, own_creds, for_org, platform_creds,
}

-- Credentials but for where Daraja calls back.
abbrev pub but_callback : Creds → Creds
but_callback c = record c { callback_url = [] }

-- A zone that is found is looked up by its ISP, and an ISP's own row is all that is used.
resolve_with-own_creds :
    (cfg : MpesaConfig) (fails : CredsStmt → Bool) (m : List (Text × Text)) (db : CredsDb)
    (zone_id : ℕ) (z : Zone) (o : OrgMpesaConfig)
    → (zone_id == 0) ≡ false
    → fails find_zone ≡ false
    → fails find_config ≡ false
    → find_first (λ z. z.id == zone_id) db.zones ≡ some z
    → find_first (is_own_config z.org_id) db.configs ≡ some o
    → resolve_with cfg fails m db zone_id ≡ own_creds (platform_creds cfg m) o
unfolding resolve_with
resolve_with-own_creds cfg fails m db zone_id z o not_zero zone_ok config_ok zone_found
      config_found =
    rw not_zero (rw zone_ok (rw zone_found (rw (for_org, config_ok, config_found) refl)))

own_creds-alone :
    (p q : Creds) (o : OrgMpesaConfig)
    → (but_callback (own_creds p o) ≡ but_callback (own_creds q o))
      × ((own_creds p o).own ≡ true)
      × ((own_creds p o).direct_till ≡ [])
      × ((own_creds p o).direct_paybill ≡ [])
unfolding own_creds
own_creds-alone p q o = (refl, refl, refl, refl)

-- For a zone of an ISP that has its own app (and queries that do not fail), the credentials come
-- from the ISP's row alone: another server configuration and other platform settings change nothing
-- of them but the callback URL, and no other platform app or settlement number is mixed in.
pub resolve_with-own :
    (cfg : MpesaConfig) (fails : CredsStmt → Bool) (m : List (Text × Text)) (db : CredsDb)
    (zone_id : ℕ) (z : Zone) (o : OrgMpesaConfig)
    → (zone_id == 0) ≡ false
    → fails find_zone ≡ false
    → fails find_config ≡ false
    → find_first (λ z. z.id == zone_id) db.zones ≡ some z
    → find_first (is_own_config z.org_id) db.configs ≡ some o
    → (cfg' : MpesaConfig) (m' : List (Text × Text))
    → (but_callback (resolve_with cfg fails m db zone_id)
        ≡ but_callback (resolve_with cfg' fails m' db zone_id))
      × ((resolve_with cfg fails m db zone_id).own ≡ true)
      × ((resolve_with cfg fails m db zone_id).direct_till ≡ [])
      × ((resolve_with cfg fails m db zone_id).direct_paybill ≡ [])
resolve_with-own cfg fails m db zone_id z o not_zero zone_ok config_ok zone_found config_found cfg'
      m' =
    rw
      (resolve_with-own_creds cfg fails m db zone_id z o not_zero zone_ok config_ok zone_found
        config_found)
      (rw
        (resolve_with-own_creds cfg' fails m' db zone_id z o not_zero zone_ok config_ok zone_found
          config_found)
        (own_creds-alone (platform_creds cfg m) (platform_creds cfg' m') o))
