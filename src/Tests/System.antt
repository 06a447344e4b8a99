-- ===== src/Tests/System.antt =====
-- The order of the engines on concrete settings.
use matreshka_panel.Base.{◌≡◌, refl, none, some, [], ◌∷◌, count}
use matreshka_panel.Journal.Record.{empty, word}
use matreshka_panel.Registry.{xray, engine_eq}
use matreshka_panel.System.Engines.{
  text, items, Db, engines_of, engine_order, different, reordered, update_engine_order,
}
use matreshka_panel.System.EngineOrder.{engine_order_complete}

-- What is stored names one engine twice and one that does not exist.
abbrev odd : Db
odd = record {
  engine_order = some (items (text "xray" ∷ text "xray" ∷ text "tor" ∷ []));
  services = none;
  tls_status = none;
  journal = empty;
}

engine_order_complete_example :
    (count (engine_eq xray) (engine_order odd) ≡ 1)
    × (engine_order (reordered (text "xray" ∷ text "hysteria" ∷ []) (word "owner") 1000 odd)
        ≡ engines_of (text "xray" ∷ text "hysteria" ∷ []))
    × (count (engine_eq xray) (engines_of (text "xray" ∷ text "hysteria" ∷ [])) ≡ 1)
unfolding update_engine_order different
engine_order_complete_example =
    engine_order_complete (text "xray" ∷ text "hysteria" ∷ []) (word "owner") 1000 odd
      (reordered (text "xray" ∷ text "hysteria" ∷ []) (word "owner") 1000 odd) xray refl
