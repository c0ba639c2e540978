-- ===== src/Tests/Shown.antt =====
-- The theorems on contexts, at the log of Tests/World.antt.
use bellbook.Context.{ContextPolicy, build_context_with}
use bellbook.Context.Selection.{
  IsSelection, IsLabeled, build_context_with-IsSelection, build_context_with-IsLabeled,
}
use bellbook.Tests.World.{log, rules, final}

build_context_with-IsSelection_example :
    IsSelection log final.state rules 0 ContextPolicy.include_tainted
      (build_context_with log final.state rules 0 ContextPolicy.include_tainted).records
build_context_with-IsSelection_example =
    build_context_with-IsSelection log final.state rules 0 ContextPolicy.include_tainted

build_context_with-IsLabeled_example :
    IsLabeled final.state (build_context_with log final.state rules 0 ContextPolicy.include_tainted)
build_context_with-IsLabeled_example =
    build_context_with-IsLabeled log final.state rules 0 ContextPolicy.include_tainted
