-- ===== src/Gpio/Null.antt =====
-- null_gpio_backend.hpp: the backend with no lines. Inputs read low.
use pi5_system_surrogate.Prelude.{false}
use pi5_system_surrogate.Gpio.{done, GpioBackend}

unfoldable pub null_backend : GpioBackend (Unit {0})
null_backend = record {
  release_line = λ _ s. s;
  request_input = λ _ s. done s;
  request_output = λ _ _ s. done s;
  set_value = λ _ _ s. done s;
  get_value = λ _ _. done false;
}
