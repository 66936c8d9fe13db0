-- ===== src/Errors/Tests.antt =====
-- The theorems on the catalog of refusals, at one code.
use saffui.Base.{◌≡◌, ◌/◌, true, some}
use text.Mathlib.Text.{starts_with}
use saffui.Errors.{number, held_too_many}
use saffui.Errors.Slugs.{slug}
use saffui.Errors.Numbers.{code_numbered, code_named, code_numbered-number, code_named-slug}
use saffui.Errors.Domains.{domain, slug-domain}

code_numbered-number_example : code_numbered (number held_too_many) ≡ some held_too_many
code_numbered-number_example = code_numbered-number held_too_many

code_named-slug_example : code_named (slug held_too_many) ≡ some held_too_many
code_named-slug_example = code_named-slug held_too_many

slug-domain_example : starts_with (slug held_too_many) (domain (number held_too_many / 100)) ≡ true
slug-domain_example = slug-domain held_too_many
