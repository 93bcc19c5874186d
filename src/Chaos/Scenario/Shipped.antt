-- ===== src/Chaos/Scenario/Shipped.antt =====
-- services/chaos-controller/app/explainers.py: the scenarios, as their steps.
use microservices_project.Prelude.{Option, none, some, List, [], ◌∷◌, ◌==◌, if◌then◌else◌, nat_eq}
use microservices_project.Prelude.Text.{Text, codes, text_eq}
use microservices_project.Chaos.Scenario.{Step}

abbrev pub black_friday : List Step
black_friday =
    record {
      at = 0;
      action = codes "cpu_pressure";
      service = some (codes "api-gateway");
      duration = some 30;
    }
    ∷ record {
      at = 5;
      action = codes "cpu_pressure";
      service = some (codes "task-service");
      duration = some 35;
    }
    ∷ record {
      at = 12;
      action = codes "cpu_pressure";
      service = some (codes "user-service");
      duration = some 25;
    }
    ∷ record {
      at = 30;
      action = codes "kill_pod";
      service = some (codes "api-gateway");
      duration = none;
    }
    ∷ []

abbrev pub region_disaster : List Step
region_disaster =
    record { at = 0; action = codes "region_outage"; service = none; duration = some 30 }
    ∷ record {
      at = 35;
      action = codes "cpu_pressure";
      service = some (codes "api-gateway");
      duration = some 15;
    }
    ∷ []

abbrev pub bad_deploy_day : List Step
bad_deploy_day =
    record {
      at = 0;
      action = codes "bad_deploy";
      service = some (codes "task-service");
      duration = none;
    }
    ∷ record {
      at = 20;
      action = codes "bad_deploy";
      service = some (codes "user-service");
      duration = none;
    }
    ∷ record {
      at = 45;
      action = codes "kill_pod";
      service = some (codes "notification-service");
      duration = none;
    }
    ∷ []

abbrev pub security_incident : List Step
security_incident =
    record { at = 0; action = codes "expire_jwt"; service = none; duration = none }
    ∷ record {
      at = 12;
      action = codes "network_partition";
      service = some (codes "task-service");
      duration = some 20;
    }
    ∷ []

abbrev pub cache_cascade : List Step
cache_cascade =
    record { at = 0; action = codes "redis_failure"; service = none; duration = some 25 }
    ∷ record { at = 10; action = codes "db_failure"; service = none; duration = some 20 }
    ∷ record {
      at = 30;
      action = codes "cpu_pressure";
      service = some (codes "api-gateway");
      duration = some 15;
    }
    ∷ []

abbrev pub friday_evening : List Step
friday_evening =
    record {
      at = 0;
      action = codes "bad_deploy";
      service = some (codes "task-service");
      duration = none;
    }
    ∷ record {
      at = 18;
      action = codes "cpu_pressure";
      service = some (codes "user-service");
      duration = some 25;
    }
    ∷ record { at = 35; action = codes "thundering_herd"; service = none; duration = some 18 }
    ∷ []

abbrev pub christmas_eve : List Step
christmas_eve =
    record {
      at = 0;
      action = codes "cpu_pressure";
      service = some (codes "api-gateway");
      duration = some 35;
    }
    ∷ record { at = 12; action = codes "redis_failure"; service = none; duration = some 28 }
    ∷ record {
      at = 25;
      action = codes "kill_pod";
      service = some (codes "task-service");
      duration = none;
    }
    ∷ record { at = 45; action = codes "third_party_outage"; service = none; duration = some 25 }
    ∷ []

abbrev pub the_audit : List Step
the_audit =
    record { at = 0; action = codes "expire_jwt"; service = none; duration = none }
    ∷ record { at = 15; action = codes "secret_leak"; service = none; duration = some 20 }
    ∷ record { at = 35; action = codes "cert_expiry"; service = none; duration = none }
    ∷ record {
      at = 55;
      action = codes "kill_pod";
      service = some (codes "user-service");
      duration = none;
    }
    ∷ []

abbrev pub active_breach : List Step
active_breach =
    record { at = 0; action = codes "secret_leak"; service = none; duration = some 25 }
    ∷ record {
      at = 10;
      action = codes "network_partition";
      service = some (codes "task-service");
      duration = some 25;
    }
    ∷ record { at = 30; action = codes "expire_jwt"; service = none; duration = none }
    ∷ record { at = 45; action = codes "cascading_failure"; service = none; duration = none }
    ∷ []

abbrev pub upgrade_gone_wrong : List Step
upgrade_gone_wrong =
    record { at = 0; action = codes "api_throttle"; service = none; duration = some 25 }
    ∷ record { at = 20; action = codes "autoscaler_stuck"; service = none; duration = some 22 }
    ∷ record { at = 40; action = codes "noisy_neighbor"; service = none; duration = some 28 }
    ∷ record {
      at = 65;
      action = codes "kill_pod";
      service = some (codes "api-gateway");
      duration = none;
    }
    ∷ []

-- `SCENARIOS.get(scenario_id)`
unfoldable pub scenario_of : Text → Option (List Step)
scenario_of id =
    if id == codes "black_friday"
    then some black_friday
    else if id == codes "region_disaster"
    then some region_disaster
    else if id == codes "bad_deploy_day"
    then some bad_deploy_day
    else if id == codes "security_incident"
    then some security_incident
    else if id == codes "cache_cascade"
    then some cache_cascade
    else if id == codes "friday_evening"
    then some friday_evening
    else if id == codes "christmas_eve"
    then some christmas_eve
    else if id == codes "the_audit"
    then some the_audit
    else if id == codes "active_breach"
    then some active_breach
    else if id == codes "upgrade_gone_wrong"
    then some upgrade_gone_wrong
    else none
