-- ===== src/Core/Resource.antt =====
-- The resource checks that effects.ts, conditions.ts and actions.ts repeat.
use sandboxengine.Prelude.{Bool, ◌&&◌}
use sandboxengine.Prelude.Int.{ℤ, leb_ℤ, is_safe_integer}
use sandboxengine.Contracts.World.{WorldResource}

-- isSafeResource
unfoldable pub is_safe_resource : WorldResource → Bool
is_safe_resource r =
    is_safe_integer r.value
    && is_safe_integer r.min
    && is_safe_integer r.max
    && leb_ℤ r.min r.max
    && leb_ℤ r.min r.value
    && leb_ℤ r.value r.max

-- A new value of a resource is a safe integer within its bounds.
unfoldable pub fits : WorldResource → ℤ → Bool
fits r v = is_safe_integer v && leb_ℤ r.min v && leb_ℤ v r.max
