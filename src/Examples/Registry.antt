-- ===== src/Examples/Registry.antt =====
-- The template registry and the validation results at the sample.
use proxmox_manager.Base.{refl, Unique, inl, inr}
use proxmox_manager.Domain.{TemplateState}
use proxmox_manager.Templates
use proxmox_manager.Templates.Active.{template_key, OneActive, promote-OneActive}
use proxmox_manager.Templates.Active.Promoted.{Promoted, promote_lem}
use proxmox_manager.Examples.Sample.{sample}

sample-Unique : Unique template_key sample.templates
sample-Unique = ((refl, tt), (tt, tt))

promote_lem_example :
    Promoted 2 TemplateState.active sample (Templates.promote 2 TemplateState.active sample)
promote_lem_example = promote_lem 2 TemplateState.active sample

sample-OneActive : OneActive sample.templates
sample-OneActive x y (inl p) (inl q) a b e = rw p (rw q refl)
sample-OneActive x y (inl p) (inr (inl q)) a b e = cc (rw q at b)
sample-OneActive x y (inr (inl p)) m a b e = cc (rw p at a)
sample-OneActive x y (inl p) (inr (inr m)) a b e = elim m [ ]
sample-OneActive x y (inr (inr m)) n a b e = elim m [ ]

promote-OneActive_example : OneActive (Templates.promote 2 TemplateState.active sample).1.templates
promote-OneActive_example =
    promote-OneActive 2 TemplateState.active sample sample-Unique sample-OneActive
